-- ===== src/Controller/Machine/Sorting.antt =====
-- sort.Strings, as samePorts uses it: two lists sort to one list exactly when they are permutations.
use Prim.Native.Nat.{compare as compare_ℕ, Ordering}
use Prim.Native.Char.{Char, code}
use Prim.Native.String
use Prim.Native.String.compare as cmp
use mathlib.Core.List.{Perm, Permᴰ}
use mathlib.Core.List.Perm
use text.Mathlib.Text.{is_le}
use text.Mathlib.TextEquality.{Char-path}
use mathlib.Core.HLevel.{hedberg}
use mathlib.Core.Logic.{∥∥₁_elim}
use native.Mathlib.Nat.{ℕ_set}
use smolvm_operator.Prelude.{suc, map, length, text_discrete}
use smolvm_operator.Prelude.{
  String, ◌≡◌, ◌↔◌, refl, ap, ◌∙◌, Bool, true, false, List, [], ◌∷◌, ◌==◌, ltb, arith, Bool-cases,
  inl, inr, eq_iff, if◌then◌else◌,
}
use smolvm_operator.Controller.Machine.{text_le, insert_text, sort_texts, same_texts}

text_le_cons :
    (c d : Char) (s t : String)
    → text_le (String.◌∷◌ c s) (String.◌∷◌ d t)
      ≡ (if ltb (code c) (code d) then true else if code c == code d then text_le s t else false)
text_le_cons c d s t =
    ap is_le (cmp.cons-cons c d s t) ∙ by_code (compare_ℕ (code c) (code d)) (String.compare s t)
  where
    by_code :
        (o p : Ordering)
        → is_le (String.then o p) ≡ (
            if elim o as (λ x. Bool) [ Ordering.lt ↦ true | _ ↦ false ]
            then true
            else if elim o as (λ x. Bool) [ Ordering.eq ↦ true | _ ↦ false ]
            then is_le p
            else false)
    by_code Ordering.lt p = refl
    by_code Ordering.eq p = refl
    by_code Ordering.gt p = refl

text_le_total : (s t : String) → text_le s t ≡ false → text_le t s ≡ true
text_le_total String.[] String.[] h = refl
text_le_total String.[] (String.◌∷◌ d t) h = cc (ap is_le (cmp.nil-cons d t))
text_le_total (String.◌∷◌ c s) String.[] h = ap is_le (cmp.nil-cons c s)
text_le_total (String.◌∷◌ c s) (String.◌∷◌ d t) h =
    ground (arith, text_le_cons c d s t, text_le_cons d c t s, text_le_total s t)

text_le_trans : (s t u : String) → text_le s t ≡ true → text_le t u ≡ true → text_le s u ≡ true
text_le_trans String.[] t String.[] h k = refl
text_le_trans String.[] t (String.◌∷◌ e u) h k = ap is_le (cmp.nil-cons e u)
text_le_trans (String.◌∷◌ c s) String.[] u h k = cc (ap is_le (cmp.cons-nil c s))
text_le_trans (String.◌∷◌ c s) (String.◌∷◌ d t) String.[] h k = cc (ap is_le (cmp.cons-nil d t))
text_le_trans (String.◌∷◌ c s) (String.◌∷◌ d t) (String.◌∷◌ e u) h k =
    ground
      (arith, text_le_cons c d s t, text_le_cons d e t u, text_le_cons c e s u, text_le_trans s t u)

text_le_antisym : (s t : String) → text_le s t ≡ true → text_le t s ≡ true → s ≡ t
text_le_antisym String.[] String.[] h k = refl
text_le_antisym String.[] (String.◌∷◌ d t) h k = cc (ap is_le (cmp.cons-nil d t))
text_le_antisym (String.◌∷◌ c s) String.[] h k = cc (ap is_le (cmp.cons-nil c s))
text_le_antisym (String.◌∷◌ c s) (String.◌∷◌ d t) h k =
    let one = text_le_cons c d s t in
    let two = text_le_cons d c t s in
    let heads : code c ≡ code d = ground (arith, one, two) in
    let tails : s ≡ t =
      text_le_antisym s t (ground (arith, one, heads)) (ground (arith, two, heads)) in
    cc (Char-path c d heads, tails)

insert_text-perm : (s : String) (l : List String) → Perm (insert_text s l) (s ∷ l)
unfolding insert_text
insert_text-perm s [] = Perm.refl _
insert_text-perm s (t ∷ l) = elim (Bool-cases (text_le s t)) [
  | inl first ↦ rw first (Perm.refl _)
  | inr later ↦ rw later (Perm.trans (Perm.cons t (insert_text-perm s l)) (Perm.swap s t l))
]

pub sort_texts-perm : (l : List String) → Perm (sort_texts l) l
unfolding sort_texts
sort_texts-perm [] = Perm.refl _
sort_texts-perm (s ∷ l) =
    Perm.trans (insert_text-perm s (sort_texts l)) (Perm.cons s (sort_texts-perm l))

insert_text_comm :
    (s t : String) (l : List String)
    → insert_text s (insert_text t l) ≡ insert_text t (insert_text s l)
unfolding insert_text
insert_text_comm s t [] = ground (arith, text_le_total s t, text_le_total t s, text_le_antisym s t)
insert_text_comm s t (x ∷ l) = ground (
  arith,
  text_le_total s t,
  text_le_total t s,
  text_le_antisym s t,
  text_le_trans s t x,
  text_le_trans t s x,
  text_le_trans s x t,
  text_le_trans t x s,
  text_le_total s x,
  text_le_total t x,
  insert_text_comm s t l,
)

texts_set : IsSet (List String)
texts_set = hlevel (hedberg text_discrete)

sort_texts_permᴰ : {l m : List String} → Permᴰ l m → sort_texts l ≡ sort_texts m
unfolding sort_texts
sort_texts_permᴰ Permᴰ.nil = refl
sort_texts_permᴰ (Permᴰ.cons e p) = cc (e, sort_texts_permᴰ p)
sort_texts_permᴰ (Permᴰ.swap {a} {b} {l} e f) = cc (e, f, insert_text_comm a b (sort_texts l))
sort_texts_permᴰ (Permᴰ.trans p q) = sort_texts_permᴰ p ∙ sort_texts_permᴰ q

pub sort_texts_iff : (l m : List String) → (sort_texts l ≡ sort_texts m) ↔ Perm l m
sort_texts_iff l m = (
  (λ e. Perm.trans (Perm.symm (sort_texts-perm l)) (rw e (sort_texts-perm m))),
  (λ p. ∥∥₁_elim p (texts_set _ _) sort_texts_permᴰ),
)

pub same_texts_iff : (l m : List String) → (same_texts l m ≡ true) ↔ (l ≡ m)
unfolding same_texts
same_texts_iff [] [] = ground arith
same_texts_iff [] (t ∷ m) = ground arith
same_texts_iff (s ∷ l) [] = ground arith
same_texts_iff (s ∷ l) (t ∷ m) = ground (arith, eq_iff s t, same_texts_iff l m)

length_permᴰ : {l m : List String} → Permᴰ l m → length l ≡ length m
length_permᴰ Permᴰ.nil = refl
length_permᴰ (Permᴰ.cons e p) = ap suc (length_permᴰ p)
length_permᴰ (Permᴰ.swap e f) = refl
length_permᴰ (Permᴰ.trans p q) = length_permᴰ p ∙ length_permᴰ q

pub length-perm : {l m : List String} → Perm l m → length l ≡ length m
length-perm p = ∥∥₁_elim p (ℕ_set _ _) length_permᴰ

pub length-map {ℓ} : {A : Type ℓ} (f : A → String) (l : List A) → length (map f l) ≡ length l
length-map f [] = refl
length-map f (x ∷ l) = ap suc (length-map f l)
