-- ===== src/TabKeys.antt =====
-- frontend/src/components/workspace/WorkspaceTabs.tsx: the keys that move between tabs. A key is its
-- name; only the four that move are told apart.
pub mod Moves
mod Examples
use llm_evaluation.Prelude.{
  ℕ, zero, suc, ◌+◌, ◌-◌, ◌%◌, ltb, if◌then◌else◌, Option, none, some, List, [], ◌∷◌, Text,
  get_elem?, length,
}

pub data Key : Type 0 where
  arrow_right arrow_left home end : Key
  other : Text → Key

-- Whole numbers: `negsuc n` is `-1 - n`.
pub data ℤ : Type 0 where
  pos negsuc : ℕ → ℤ

-- `n - 1`, `z + n` and `z % n`; the remainder has the sign of `z`.
abbrev pub minus_one : ℕ → ℤ
minus_one zero = negsuc 0
minus_one (suc n) = pos n

abbrev pub plus : ℤ → ℕ → ℤ
plus (pos i) n = pos (i + n)
plus (negsuc i) n = if ltb i n then pos (n - suc i) else negsuc (i - n)

abbrev pub negated : ℕ → ℤ
negated zero = pos 0
negated (suc n) = negsuc n

abbrev pub remainder : ℤ → ℕ → ℤ
remainder (pos i) n = pos (i % n)
remainder (negsuc i) n = negated (suc i % n)

pub next_index : Key → (index count : ℕ) → Option ℤ
next_index arrow_right index count = some (remainder (pos (index + 1)) count)
next_index arrow_left index count = some (remainder (plus (minus_one index) count) count)
next_index home index count = some (pos 0)
next_index end index count = some (minus_one count)
next_index (other name) index count = none

-- The tab that `onChange` is called with, if it is called.
pub activate_tab : List Text → ℤ → Option Text
activate_tab tabs (pos index) = get_elem? tabs index
activate_tab tabs (negsuc n) = none

pub handle_key_down : List Text → Key → ℕ → Option Text
handle_key_down tabs key index = elim (next_index key index (length tabs)) [
  | none ↦ none
  | some next ↦ activate_tab tabs next
]
