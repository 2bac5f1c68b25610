-- ===== src/Leaderboard/Statuses.antt =====
-- The status boxes of the filters, and the sort that the headers choose.
use llm_evaluation.Prelude.{
  ◌≡◌, not, ◌&&◌, ◌||◌, if◌then◌else◌, List, [], ◌∷◌, ◌++◌, Text, text_eq, text_eq_iff,
  text_eq_refl, includes, keep, arith,
}
use llm_evaluation.Leaderboard.Session.{toggle}

includes-append :
    (ts : List Text) (s t : Text) → includes (ts ++ s ∷ []) t ≡ (text_eq s t || includes ts t)
unfolding includes
includes-append [] s t = ground arith
includes-append (u ∷ ts) s t = ground (arith, includes-append ts s t)

includes-keep :
    (ts : List Text) (s t : Text)
    → includes (keep (λ u. not (text_eq u s)) ts) t ≡ (not (text_eq s t) && includes ts t)
unfolding includes
includes-keep [] s t = ground arith
includes-keep (u ∷ ts) s t =
    ground (arith, includes-keep ts s t, text_eq_iff u s, text_eq_iff u t, text_eq_iff s t)

-- Toggling a status turns its own box over and leaves the others.
pub includes-toggle :
    (status t : Text) (ts : List Text)
    → includes (toggle status ts) t
      ≡ (if text_eq status t then not (includes ts status) else includes ts t)
unfolding toggle
includes-toggle status t ts = ground (
  arith,
  includes-keep ts status t,
  includes-append ts status t,
  text_eq_iff status t,
  text_eq_refl status,
)
