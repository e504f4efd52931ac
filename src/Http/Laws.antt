-- ===== src/Http/Laws.antt =====
-- The laws of sequencing for Exchange, and of a server's answers to a sequence.
use smolvm_operator.Prelude.{◌≡◌, refl}
use smolvm_operator.Http.{Exchange, answer, send, ◌>>=◌}

pub bind_assoc :
    {A B C : Type 0} (p : Exchange A) (f : A → Exchange B) (g : B → Exchange C)
    → (p >>= f) >>= g ≡ (p >>= λ a. f a >>= g)
bind_assoc (answer a) f g = refl
bind_assoc (send q k) f g = λ i. send q (λ r. bind_assoc (k r) f g i)

pub bind_cong :
    {A B : Type 0} (p : Exchange A) (f g : A → Exchange B)
    → ((a : A) → f a ≡ g a)
    → (p >>= f) ≡ (p >>= g)
bind_cong p f g same = λ i. p >>= λ a. same a i
