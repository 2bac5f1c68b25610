-- ===== src/Routing/PlainSyntax.antt =====
-- A query syntax for plain names and values, which shows that the assumptions of `SearchLaws` can be
-- met. It escapes nothing, and so it is not the browser's on other texts.
use llm_evaluation.Prelude.{
  ℕ, ◌≡◌, refl, true, false, ◌==◌, if◌then◌else◌, [], ◌∷◌, ◌++◌, Text, All, all, arith, and-split,
  ap, ◌∙◌,
}
use mathlib.Core.List.{append_assoc, append-nil}
use llm_evaluation.Routing.{
  SearchSyntax, SearchLaws, SearchParams, IsPlain, IsPlainPair, is_id_char,
}

-- Reading, in a value behind its name, or in a name.
pub data Mode : Type 0 where
  in_name in_value : Mode

read_from : Mode → Text → Text → Text → SearchParams
read_from mode name value [] = (name, value) ∷ []
read_from in_name name value (c ∷ s) =
    let closed = read_from in_name [] [] s in
    let later = read_from in_value name [] s in
    let longer = read_from in_name (name ++ c ∷ []) [] s in
    if c == b'&' then (name, value) ∷ closed else if c == b'=' then later else longer
read_from in_value name value (c ∷ s) =
    let closed = read_from in_name [] [] s in
    let longer = read_from in_value name (value ++ c ∷ []) s in
    if c == b'&' then (name, value) ∷ closed else longer

read_body : Text → SearchParams
read_body [] = []
read_body (c ∷ s) = read_from in_name [] [] (c ∷ s)

read : Text → SearchParams
read [] = []
read (c ∷ s) = if c == b'?' then read_body s else read_body (c ∷ s)

write : SearchParams → Text
write [] = []
write ((n, v) ∷ []) = n ++ b'=' ∷ v
write ((n, v) ∷ p ∷ ps) = n ++ b'=' ∷ v ++ b'&' ∷ write (p ∷ ps)

unfoldable pub plain_syntax : SearchSyntax
unfolding read_from read_body read write
plain_syntax = record { parse = read; to_string = write }

id_char-ne : (c : ℕ) → is_id_char c ≡ true → ((c == b'&') ≡ false) × ((c == b'=') ≡ false)
id_char-ne c h = ground arith

read_from-name :
    (w s name : Text)
    → IsPlain w
    → read_from in_name name [] (w ++ b'=' ∷ s) ≡ read_from in_value (name ++ w) [] s
unfolding read_from
read_from-name [] s name h = rw (append-nil name)
read_from-name (c ∷ w) s name h =
    let (here, later) = and-split (is_id_char c) (all is_id_char w) h in
    let (amp, eq) = id_char-ne c here in
    rw (amp, eq) (read_from-name w s (name ++ c ∷ []) later ∙ rw append_assoc)

read_from-value :
    (w s name value : Text)
    → IsPlain w
    → read_from in_value name value (w ++ s) ≡ read_from in_value name (value ++ w) s
unfolding read_from
read_from-value [] s name value h = rw (append-nil value)
read_from-value (c ∷ w) s name value h =
    let (here, later) = and-split (is_id_char c) (all is_id_char w) h in
    rw ((id_char-ne c here).0) (read_from-value w s name (value ++ c ∷ []) later ∙ rw append_assoc)

read_from-pair :
    (n v s : Text)
    → IsPlain n
    → IsPlain v
    → read_from in_name [] [] (n ++ b'=' ∷ (v ++ s)) ≡ read_from in_value n v s
read_from-pair n v s pn pv = read_from-name n (v ++ s) [] pn ∙ read_from-value v s n [] pv

read_from-write :
    (n v : Text) (ps : SearchParams)
    → All IsPlainPair ((n, v) ∷ ps)
    → read_from in_name [] [] (write ((n, v) ∷ ps)) ≡ (n, v) ∷ ps
unfolding write read_from
read_from-write n v [] ((pn, pv), h) = rw (rw (append-nil v) at (read_from-pair n v [] pn pv))
read_from-write n v ((m, w) ∷ ps) ((pn, pv), h) =
    rw append_assoc (read_from-pair n v _ pn pv ∙ ap (◌∷◌ (n, v)) (read_from-write m w ps h))

read_body-write :
    (p : Text × Text) (ps : SearchParams)
    → All IsPlainPair (p ∷ ps)
    → read_body (write (p ∷ ps)) ≡ p ∷ ps
unfolding read_body write
read_body-write ([], v) [] h = read_from-write [] v [] h
read_body-write (c ∷ n, v) [] h = read_from-write (c ∷ n) v [] h
read_body-write ([], v) (q ∷ ps) h = read_from-write [] v (q ∷ ps) h
read_body-write (c ∷ n, v) (q ∷ ps) h = read_from-write (c ∷ n) v (q ∷ ps) h

pub plain_syntax-laws : SearchLaws plain_syntax
unfolding plain_syntax read read_body write
plain_syntax-laws = record { parse_empty = refl; parse-to_string = law }
  where
    law : (ps : SearchParams) → All IsPlainPair ps → read_body (write ps) ≡ ps
    law [] h = refl
    law (p ∷ ps) h = read_body-write p ps h
