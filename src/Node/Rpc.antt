-- ===== src/Node/Rpc.antt =====
-- node/src/rpc.rs: the RPC extensions of a full node.
use substrate_node_template.Common.{Bool, List, [], ◌∷◌}

-- FullSystem, which is told whether unsafe calls are denied, and TransactionPayment.
pub data RpcExtension : Type 0 where
  full_system : (deny_unsafe : Bool) → RpcExtension
  transaction_payment : RpcExtension

-- Each `extend_with`, in order.
abbrev pub create_full : Bool → List RpcExtension
create_full deny_unsafe = full_system deny_unsafe ∷ transaction_payment ∷ []
