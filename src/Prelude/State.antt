-- ===== src/Prelude/State.antt =====
-- Actions on an explicit world: the world that they leave, and their answer.
abbrev pub Action {ℓ κ} : Type ℓ → Type κ → Type (ℓ ⊔ κ)
Action W A = W → W × A

infixl 5 ◌>>=◌ ◌>>◌
abbrev pub ◌>>=◌ {ℓ κ μ} :
    {W : Type ℓ} {A : Type κ} {B : Type μ} → Action W A → (A → Action W B) → Action W B
◌>>=◌ m f w = f (m w).1 (m w).0

abbrev pub ◌>>◌ {ℓ κ μ} :
    {W : Type ℓ} {A : Type κ} {B : Type μ} → Action W A → Action W B → Action W B
◌>>◌ m k w = k (m w).0

abbrev pub pure {ℓ κ} : {W : Type ℓ} {A : Type κ} → A → Action W A
pure a w = (w, a)
