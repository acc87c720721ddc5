-- ===== src/Base/Results.antt =====
-- The result of code that may raise.
use Prim.Native.String.{String}

pub data Result {ℓ κ} (E : Type ℓ) (A : Type κ) : Type (ℓ ⊔ κ) where
  ok : A → Result E A
  err : E → Result E A

-- An exception of the language: the name of its class, and its text.
pub record Exn : Type 0 where
  pub class_name : String
  pub message : String

-- What a call of outside code does: it returns, or raises.
abbrev pub Attempt : Type 0 → Type 0
Attempt A = Result Exn A
