-- ===== src/Client/Binds.antt =====
-- Sequences of what may throw.
use axn_chat_app.Prelude.{◌≡◌, refl}
use axn_chat_app.Client.State.{Handled, done, throws, out_of_bounds, stuck, ◌>>=◌}

pub bind_assoc :
    {A B C : Type 0} (x : Handled A) (f : A → Handled B) (g : B → Handled C)
    → (x >>= f >>= g) ≡ (x >>= λ a. f a >>= g)
bind_assoc (done a) f g = refl
bind_assoc throws f g = refl
bind_assoc out_of_bounds f g = refl
bind_assoc stuck f g = refl

pub bind-cong :
    {A B : Type 0} (x : Handled A) {f g : A → Handled B}
    → ((a : A) → f a ≡ g a)
    → (x >>= f) ≡ (x >>= g)
bind-cong (done a) h = h a
bind-cong throws h = refl
bind-cong out_of_bounds h = refl
bind-cong stuck h = refl

-- The same, where the result is known.
pub bind_known :
    {A B : Type 0} (x : Handled A) {f g : A → Handled B}
    → ((a : A) → x ≡ done a → f a ≡ g a)
    → (x >>= f) ≡ (x >>= g)
bind_known (done a) h = h a refl
bind_known throws h = refl
bind_known out_of_bounds h = refl
bind_known stuck h = refl

-- What a sequence gives, its first part has given.
pub bind-done :
    {A B : Type 0} (x : Handled A) (f : A → Handled B) (b : B)
    → (x >>= f) ≡ done b
    → (a : A) × (x ≡ done a) × (f a ≡ done b)
bind-done (done a) f b h = (a, refl, h)
bind-done throws f b h = cc
bind-done out_of_bounds f b h = cc
bind-done stuck f b h = cc
