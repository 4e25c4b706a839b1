-- ===== src/Endpoint.antt =====
-- The streams of the endpoint: src/bsa_pcie_exerciser/gateware/core/bar_routing.py and
-- core/multibar_endpoint.py.
pub mod Dispatcher
pub mod Grants
pub mod Completions
pub mod Masters
pub mod Stub
pub mod RawTx
use bsa_pcie_exerciser.Prelude.{ℕ, Bool}

-- One beat of a stream, with what it carries.
pub record Beat {ℓ} (A : Type ℓ) : Type ℓ where
  pub first : Bool
  pub last : Bool
  pub body : A

-- The request layout of the library, as far as the routing names its fields.
pub record Request : Type 0 where
  pub we : Bool
  pub adr : ℕ
  pub len : ℕ
  pub req_id : ℕ
  pub tag : ℕ
  pub dat : ℕ
  pub channel : ℕ
  pub user_id : ℕ
  pub bar_hit : ℕ
  pub first_be : ℕ
  pub last_be : ℕ
  pub attr : ℕ
  pub at : ℕ

-- The completion layout.
pub record Completion : Type 0 where
  pub dat : ℕ
  pub len : ℕ
  pub end : Bool
  pub err : Bool
  pub tag : ℕ
  pub status : ℕ
  pub byte_count : ℕ
  pub adr : ℕ
  pub req_id : ℕ
  pub cmp_id : ℕ
  pub channel : ℕ
  pub user_id : ℕ
