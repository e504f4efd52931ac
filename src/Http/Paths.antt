-- ===== src/Http/Paths.antt =====
-- strings.TrimSpace, TrimRight, HasPrefix, TrimPrefix and Split as the runtime API uses them.
use Prim.Native.Char.{Char, code}
use Prim.Native.String
use Prim.Native.String.{String}
use text.Mathlib.TextLemmas.{cons-append, nil-append}
use smolvm_operator.Prelude.{
  Bool, true, false, ◌&&◌, ◌||◌, ◌≡◌, refl, Option, none, some, List, [], ◌∷◌, ◌==◌, ltb, str_eq,
  if◌then◌else◌, arith,
}

-- unicode.IsSpace
unfoldable pub is_space : Char → Bool
is_space c =
    let n = code c in
    (ltb 0x08 n && ltb n 0x0e)
    || n == 0x20
    || n == 0x85
    || n == 0xa0
    || n == 0x1680
    || (ltb 0x1fff n && ltb n 0x200b)
    || n == 0x2028
    || n == 0x2029
    || n == 0x202f
    || n == 0x205f
    || n == 0x3000

is_slash : Char → Bool
is_slash c = code c == 0x2f

unfoldable pub trim_start : (Char → Bool) → String → String
trim_start cut String.[] = ""
trim_start cut (String.◌∷◌ c s) =
    let rest = trim_start cut s in if cut c then rest else String.◌∷◌ c s

unfoldable pub trim_end : (Char → Bool) → String → String
trim_end cut String.[] = ""
trim_end cut (String.◌∷◌ c s) =
    let rest = trim_end cut s in if cut c && str_eq rest "" then "" else String.◌∷◌ c rest

unfoldable pub trim_space : String → String
unfolding is_space trim_start trim_end
trim_space s = trim_end is_space (trim_start is_space s)

unfoldable pub trim_right_slash : String → String
unfolding is_slash trim_end
trim_right_slash s = trim_end is_slash s

-- What follows a prefix.
unfoldable pub cut_prefix : String → String → Option String
cut_prefix String.[] s = some s
cut_prefix (String.◌∷◌ p prefix) String.[] = none
cut_prefix (String.◌∷◌ p prefix) (String.◌∷◌ c s) =
    let rest = cut_prefix prefix s in if code p == code c then rest else none

unfoldable pub has_prefix : String → String → Bool
unfolding cut_prefix
has_prefix s prefix = elim (cut_prefix prefix s) [ none ↦ false | some rest ↦ true ]

unfoldable pub trim_prefix : String → String → String
unfolding cut_prefix
trim_prefix s prefix = elim (cut_prefix prefix s) [ none ↦ s | some rest ↦ rest ]

onto_first : Char → List String → List String
onto_first c [] = String.◌∷◌ c "" ∷ []
onto_first c (part ∷ parts) = String.◌∷◌ c part ∷ parts

-- strings.Split at "/".
unfoldable pub split_slash : String → List String
unfolding is_slash onto_first
split_slash String.[] = "" ∷ []
split_slash (String.◌∷◌ c s) =
    let rest = split_slash s in if is_slash c then "" ∷ rest else onto_first c rest

unfoldable pub has_slash : String → Bool
unfolding is_slash
has_slash String.[] = false
has_slash (String.◌∷◌ c s) = is_slash c || has_slash s

pub cut_prefix-append : (prefix s : String) → cut_prefix prefix (String.◌++◌ prefix s) ≡ some s
unfolding cut_prefix
cut_prefix-append String.[] s = rw (nil-append s) refl
cut_prefix-append (String.◌∷◌ p prefix) s =
    rw (cons-append p prefix s) (ground (arith, cut_prefix-append prefix s))

pub has_prefix-append : (prefix s : String) → has_prefix (String.◌++◌ prefix s) prefix ≡ true
unfolding has_prefix
has_prefix-append prefix s = rw (has_prefix, cut_prefix-append prefix s) refl

-- A name without a slash is its only part.
pub split_slash-name : (name : String) → has_slash name ≡ false → split_slash name ≡ name ∷ []
unfolding split_slash has_slash
split_slash-name String.[] clean = refl
split_slash-name (String.◌∷◌ c s) clean = ground (arith, split_slash-name s)

-- A name without a slash is the first part before a slash.
pub split_slash-append :
    (name rest : String)
    → has_slash name ≡ false
    → split_slash (String.◌++◌ name (String.◌++◌ "/" rest)) ≡ name ∷ split_slash rest
unfolding split_slash has_slash
split_slash-append String.[] rest clean =
    rw (nil-append (String.◌++◌ "/" rest), cons-append "/" "" rest, nil-append rest) refl
split_slash-append (String.◌∷◌ c s) rest clean =
    rw (cons-append c s (String.◌++◌ "/" rest)) (ground (arith, split_slash-append s rest))

split_run : split_slash "vm/exec" ≡ "vm" ∷ "exec" ∷ []
unfolding split_slash
split_run = refl

trim_run : trim_space " not found\n" ≡ "not found"
unfolding trim_space
trim_run = refl
