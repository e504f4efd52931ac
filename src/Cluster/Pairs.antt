-- ===== src/Cluster/Pairs.antt =====
-- A symmetric relation between the members of a list, and what stands in the middle of the list.
use smolvm_operator.Prelude.{◌↔◌, List, [], ◌∷◌, ◌++◌, All, arith}

module _ {A : Type 0} where
  abbrev pub Pairwise : (A → A → Type 0) → List A → Type 0
  Pairwise R [] = Unit
  Pairwise R (x ∷ xs) = All (R x) xs × Pairwise R xs

  pub All-middle :
      (P : A → Type 0) (before after : List A) (x : A)
      → All P (before ++ x ∷ after) ↔ (P x × All P (before ++ after))
  All-middle P [] after x = ground arith
  All-middle P (y ∷ before) after x = ground (arith, All-middle P before after x)

  pub All-mono : {P Q : A → Type 0} (xs : List A) → ((x : A) → P x → Q x) → All P xs → All Q xs
  All-mono [] f all = tt
  All-mono (x ∷ xs) f (here, all) = (f x here, All-mono xs f all)

  pub All-mono2 :
      {P Q S : A → Type 0} (xs : List A)
      → ((x : A) → P x → Q x → S x)
      → All P xs
      → All Q xs
      → All S xs
  All-mono2 [] f p q = tt
  All-mono2 (x ∷ xs) f (p, ps) (q, qs) = (f x p q, All-mono2 xs f ps qs)

  module _ (R : A → A → Type 0) (symmetric : (x y : A) → R x y → R y x) where
    pub Pairwise-middle :
        (before after : List A) (x : A)
        → Pairwise R (before ++ x ∷ after)
          ↔ (All (R x) (before ++ after) × Pairwise R (before ++ after))
    Pairwise-middle [] after x = ground arith
    Pairwise-middle (y ∷ before) after x =
        let rest = Pairwise-middle before after x in
        let others = All-middle (R y) before after x in
        ground (arith, rest, others, symmetric x y, symmetric y x)

    -- An element gives way to another that is related to all that it was related to.
    pub Pairwise-replace :
        (before after : List A) (x y : A)
        → ((z : A) → R x z → R y z)
        → Pairwise R (before ++ x ∷ after)
        → Pairwise R (before ++ y ∷ after)
    Pairwise-replace before after x y more pairs =
        let parts = (Pairwise-middle before after x).0 pairs in
        (Pairwise-middle before after y).1 (All-mono (before ++ after) more parts.0, parts.1)
