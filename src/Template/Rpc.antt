-- ===== src/Template/Rpc.antt =====
-- template/node/src/rpc.rs: the RPC methods of the node.
use on_demand.Prelude.{Option, none, some, List, ◌++◌, [], ◌≡◌, refl, Option-cases, inl, inr, arith}
use Prim.Native.String.{String}

-- `FullDeps`.
pub record FullDeps (Client Pool : Type 0) : Type 0 where
  pub client : Client
  pub pool : Pool

-- `RpcModule` of jsonrpsee: a module has methods by name, and `merge` adds those of another one after
-- them, or fails where a name is taken. The two modules are those of the client libraries.
pub record RpcLibraries (Client Pool : Type 0) : Type 1 where
  pub RpcModule : Type 0
  pub new : RpcModule
  pub methods : RpcModule → List String
  pub methods-new : methods new ≡ []
  pub merge : RpcModule → RpcModule → Option RpcModule
  pub methods-merge : (a b c : RpcModule) → merge a b ≡ some c → methods c ≡ methods a ++ methods b
  pub system : Client → Pool → RpcModule
  pub transaction_payment : Client → RpcModule

module _ {Client Pool : Type 0} (l : RpcLibraries Client Pool) where
  unfoldable pub create_full : FullDeps Client Pool → Option l.RpcModule
  create_full deps = elim (l.merge l.new (l.system deps.client deps.pool)) [
    | none ↦ none
    | some with_system ↦ l.merge with_system (l.transaction_payment deps.client)
  ]

  -- The node answers the methods of the system's module and then those of the fees', over its client
  -- and pool, and no others.
  pub methods-create_full :
      (deps : FullDeps Client Pool) (m : l.RpcModule)
      → create_full deps ≡ some m
      → l.methods m
        ≡ l.methods (l.system deps.client deps.pool)
          ++ l.methods (l.transaction_payment deps.client)
  unfolding create_full
  methods-create_full deps m e =
      elim (Option-cases (l.merge l.new (l.system deps.client deps.pool))) [
        | inl taken ↦ absurd (ground arith)
        | inr (with_system, merged) ↦
            let first = l.methods-merge l.new _ with_system merged in
            let second =
              l.methods-merge with_system (l.transaction_payment deps.client) m (ground arith) in
            rw (second, first, l.methods-new) refl
      ]
