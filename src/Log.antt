-- ===== src/Log.antt =====
-- log/log.go: the wrappers around logrus. Each passes the slice of its arguments on as one argument. What
-- logrus makes of a call is its text by package fmt, as far as the program's formats go.
pub mod Laws
use gost_plugin.Common.{Bytes, List, Option, [], codes, none, some, ℕ, ◌%◌, ◌++◌, ◌^◌, ◌∷◌}

-- The levels of logrus.
pub data Level : Type 0 where
  fatal error warn info debug : Level

-- An argument of a call of logrus: a value, by the text that `%s` prints for it, or a slice of values.
pub data Arg : Type 0 where
  value : Bytes → Arg
  slice : List Bytes → Arg

-- A format is the pieces of its text; `verb` is a `%s`.
pub data Piece : Type 0 where
  literal : Bytes → Piece
  verb : Piece

-- The call of logrus: with a format, or of a function that ends a line.
pub record Call : Type 0 where
  pub level : Level
  pub format : Option (List Piece)
  pub args : List Arg

-- `log.Xf(format, v)` and `log.Xln(args)`.
abbrev pub call_f : Level → List Piece → List Bytes → Call
call_f level format v = record { level = level; format = some format; args = slice v ∷ [] }

abbrev pub call_ln : Level → List Bytes → Call
call_ln level args = record { level = level; format = none; args = slice args ∷ [] }

unfoldable pub infof : List Piece → List Bytes → Call
infof format v = call_f info format v

unfoldable pub infoln : List Bytes → Call
infoln args = call_ln info args

unfoldable pub warnf : List Piece → List Bytes → Call
warnf format v = call_f warn format v

unfoldable pub warnln : List Bytes → Call
warnln args = call_ln warn args

unfoldable pub errorf : List Piece → List Bytes → Call
errorf format v = call_f error format v

unfoldable pub errorln : List Bytes → Call
errorln args = call_ln error args

unfoldable pub debugf : List Piece → List Bytes → Call
debugf format v = call_f debug format v

unfoldable pub debugln : List Bytes → Call
debugln args = call_ln debug args

unfoldable pub fatalf : List Piece → List Bytes → Call
fatalf format v = call_f fatal format v

unfoldable pub fatalln : List Bytes → Call
fatalln args = call_ln fatal args

-- `log.Level(newLevel)`: a level of logrus has 32 bits.
unfoldable pub set_level : ℕ → ℕ
set_level new_level = new_level % 2 ^ 32

-- What fmt prints. A slice is its values between brackets, with spaces.
abbrev pub spaced : List Bytes → Bytes
spaced [] = []
spaced (v ∷ []) = v
spaced (v ∷ w ∷ vs) = v ++ b' ' ∷ spaced (w ∷ vs)

abbrev pub printed : Arg → Bytes
printed (value v) = v
printed (slice vs) = b'[' ∷ spaced vs ++ codes "]"

-- Behind the format: the arguments that no verb took.
abbrev pub extra_arg : Arg → Bytes
extra_arg (value v) = codes "string=" ++ v
extra_arg (slice vs) = codes "[]interface {}=" ++ printed (slice vs)

abbrev pub extra_args : List Arg → Bytes
extra_args [] = []
extra_args (a ∷ []) = extra_arg a
extra_args (a ∷ b ∷ rest) = extra_arg a ++ codes ", " ++ extra_args (b ∷ rest)

abbrev pub extra : List Arg → Bytes
extra [] = []
extra (a ∷ rest) = codes "%!(EXTRA " ++ extra_args (a ∷ rest) ++ codes ")"

-- `fmt.Sprintf`
unfoldable pub sprintf : List Piece → List Arg → Bytes
sprintf [] args = extra args
sprintf (literal s ∷ ps) args = s ++ sprintf ps args
sprintf (verb ∷ ps) [] = codes "%!s(MISSING)" ++ sprintf ps []
sprintf (verb ∷ ps) (a ∷ args) = printed a ++ sprintf ps args

-- `fmt.Sprintln` without its line end, as logrus takes it.
abbrev pub sprintln : List Arg → Bytes
sprintln [] = []
sprintln (a ∷ []) = printed a
sprintln (a ∷ b ∷ rest) = printed a ++ b' ' ∷ sprintln (b ∷ rest)

-- The message that logrus logs for a call.
unfoldable pub message : Call → Bytes
unfolding sprintf
message c = elim c.format [ none ↦ sprintln c.args | some ps ↦ sprintf ps c.args ]
