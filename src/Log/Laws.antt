-- ===== src/Log/Laws.antt =====
-- The messages that the wrappers log.
use gost_plugin.Common.{
  Bytes, List, Option, [], ap, append_assoc, codes, none, refl, some, sym, ◌++◌, ◌∙◌, ◌∷◌, ◌≡◌,
}
use gost_plugin.Log.{
  Piece, debugf, debugln, errorf, errorln, fatalf, fatalln, infof, infoln, literal, message, slice,
  spaced, sprintf, verb, warnf, warnln,
}

-- A format up to its first verb, and the text behind that verb when no argument is left for the
-- others; `none` if it has no verb.
abbrev pub behind : List Piece → Bytes
behind [] = []
behind (literal s ∷ ps) = s ++ behind ps
behind (verb ∷ ps) = codes "%!s(MISSING)" ++ behind ps

abbrev pub Around : Type 0
Around = Option (Bytes × Bytes)

abbrev prefixed : Bytes → Around → Around
prefixed s none = none
prefixed s (some (a, b)) = some (s ++ a, b)

abbrev pub around_verb : List Piece → Around
around_verb [] = none
around_verb (literal s ∷ ps) = prefixed s (around_verb ps)
around_verb (verb ∷ ps) = some ([], behind ps)

-- The text of a format without verbs.
abbrev pub plain_text : List Piece → Bytes
plain_text [] = []
plain_text (literal s ∷ ps) = s ++ plain_text ps
plain_text (verb ∷ ps) = plain_text ps

abbrev pub bracketed : List Bytes → Bytes
bracketed v = b'[' ∷ spaced v ++ codes "]"

-- A list of arguments put into a format as one.
abbrev pub wrapped : List Piece → List Bytes → Around → Bytes
wrapped ps v (some (a, b)) = a ++ (bracketed v ++ b)
wrapped ps v none = plain_text ps ++ (codes "%!(EXTRA []interface {}=" ++ bracketed v ++ codes ")")

sprintf-behind : (ps : List Piece) → sprintf ps [] ≡ behind ps
unfolding sprintf
sprintf-behind [] = refl
sprintf-behind (literal s ∷ ps) = ap (λ x. s ++ x) (sprintf-behind ps)
sprintf-behind (verb ∷ ps) = ap (λ x. codes "%!s(MISSING)" ++ x) (sprintf-behind ps)

prefixed-wrapped :
    (s : Bytes) (ps : List Piece) (v : List Bytes) (r : Around)
    → s ++ wrapped ps v r ≡ wrapped (literal s ∷ ps) v (prefixed s r)
prefixed-wrapped s ps v none = sym (append_assoc s (plain_text ps) _)
prefixed-wrapped s ps v (some (a, b)) = sym (append_assoc s a (bracketed v ++ b))

sprintf-wrapped :
    (ps : List Piece) (v : List Bytes) → sprintf ps (slice v ∷ []) ≡ wrapped ps v (around_verb ps)
unfolding sprintf
sprintf-wrapped [] v = refl
sprintf-wrapped (literal s ∷ ps) v =
    ap (λ x. s ++ x) (sprintf-wrapped ps v) ∙ prefixed-wrapped s ps v (around_verb ps)
sprintf-wrapped (verb ∷ ps) v = ap (λ x. bracketed v ++ x) (sprintf-behind ps)

-- The message of each wrapper with a format: the first verb prints all the arguments, between brackets,
-- and every later verb prints that its argument is missing; without a verb they follow as extra
-- arguments. A wrapper that ends a line logs its arguments between brackets.
pub message_lem :
    (ps : List Piece) (v : List Bytes)
    → (message (infof ps v) ≡ wrapped ps v (around_verb ps))
      × (message (warnf ps v) ≡ wrapped ps v (around_verb ps))
      × (message (errorf ps v) ≡ wrapped ps v (around_verb ps))
      × (message (debugf ps v) ≡ wrapped ps v (around_verb ps))
      × (message (fatalf ps v) ≡ wrapped ps v (around_verb ps))
      × (message (infoln v) ≡ bracketed v)
      × (message (warnln v) ≡ bracketed v)
      × (message (errorln v) ≡ bracketed v)
      × (message (debugln v) ≡ bracketed v)
      × (message (fatalln v) ≡ bracketed v)
unfolding message infof warnf errorf debugf fatalf infoln warnln errorln debugln fatalln
message_lem ps v = let h = sprintf-wrapped ps v in (h, h, h, h, h, refl, refl, refl, refl, refl)
