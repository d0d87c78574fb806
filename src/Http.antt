-- ===== src/Http.antt =====
-- What a service answers: a value, or the status and the detail of an HTTPException.
use integrado_web_xd.Prelude.{ℕ, ◌≡◌, refl, String}

pub data Reply {ℓ} (A : Type ℓ) : Type ℓ where
  accepted : A → Reply A
  http_error : (status_code : ℕ) (detail : String) → Reply A

-- A property of what a service computes from a reply, from the property on each branch.
pub on_reply {ℓ ℓ' ℓ''} :
    {A : Type ℓ} {B : Type ℓ'} (P : B → Type ℓ'') (r : Reply A) (f : ℕ → String → B) (g : A → B)
    → ((n : ℕ) (d : String) → r ≡ http_error n d → P (f n d))
    → ((a : A) → r ≡ accepted a → P (g a))
    → P (elim r [ http_error n d ↦ f n d | accepted a ↦ g a ])
on_reply P (http_error n d) f g h k = h n d refl
on_reply P (accepted a) f g h k = k a refl
