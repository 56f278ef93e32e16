-- ===== src/Runtime/Whole.antt =====
-- `construct_runtime!` of runtime/src/lib.rs with the library pallets: Sudo, which runs any call of the
-- runtime, and the others, which have their own storage.
pub mod Root
pub mod Refines
pub mod Genesis
use substrate_node_template.Common.{
  ℕ, ◌<◌, ◌≡◌, ◌⊎◌, Bool, true, false, List, [], ◌∷◌, Result, ok, err,
}
use substrate_node_template.Frame.{
  System, BadOrigin, bad_origin, Dispatch, done, failed, panicked, DispatchError, ValidTransaction,
}
use substrate_node_template.Ocw.Types.{Payload}
use substrate_node_template.ExampleOcw.Types.{PricePayload}
use substrate_node_template.Runtime.Pallets.{
  RuntimeCall, RuntimeError, RuntimeState, RuntimeTag, lifted, dispatch, validate_unsigned,
}
use substrate_node_template.Runtime.Chain.{IsEncodable, set_block_number}

-- The storage of the three pallets and that of the library pallets.
pub record Whole (AccountId Storage : Type 0) : Type 0 where
  pub pallets : RuntimeState AccountId
  pub library : Storage

-- Sudo's `sudo`, with `sudo_unchecked_weight`, and its `sudo_as` carry a call of the runtime: its
-- `Config` has `type Call = Call`.
pub data WholeCall (AccountId LibraryCall Public Signature : Type 0) : Type 0 where
  own : RuntimeCall Public Signature → WholeCall AccountId LibraryCall Public Signature
  library_call : LibraryCall → WholeCall AccountId LibraryCall Public Signature
  sudo_call :
      WholeCall AccountId LibraryCall Public Signature
      → WholeCall AccountId LibraryCall Public Signature
  sudo_as_call :
      AccountId
      → WholeCall AccountId LibraryCall Public Signature
      → WholeCall AccountId LibraryCall Public Signature

-- The library pallets. A call of Sudo is given how the call that it carries is dispatched.
pub record Library (Origin AccountId : Type 0) : Type 1 where
  pub LibraryCall : Type 0
  -- the calls that can write to any storage: set_storage, kill_storage, kill_prefix and those that
  -- replace the code, all of the System pallet
  pub IsRaw : LibraryCall → Type 0
  pub Storage : Type 0
  pub LibraryError : Type 0
  pub runtime_error : RuntimeError → LibraryError
  pub dispatch_library :
      LibraryCall
      → Origin
      → Whole AccountId Storage
      → Dispatch LibraryError (Whole AccountId Storage)
  pub sudo :
      (Origin → Whole AccountId Storage → Dispatch LibraryError (Whole AccountId Storage))
      → Origin
      → Whole AccountId Storage
      → Dispatch LibraryError (Whole AccountId Storage)
  pub sudo_as :
      AccountId
      → (Origin → Whole AccountId Storage → Dispatch LibraryError (Whole AccountId Storage))
      → Origin
      → Whole AccountId Storage
      → Dispatch LibraryError (Whole AccountId Storage)

-- A dispatch that does not panic leaves a storage.
abbrev pub Leaves : {E S : Type 0} → Dispatch E S → S → Type 0
Leaves (done t) u = t ≡ u
Leaves (failed e t) u = t ≡ u
Leaves panicked u = ⊥

module _ (sys : System) (lib : Library (System.Origin sys) (System.AccountId sys)) where
  open sys use {Origin, AccountId, ensure_signed, ensure_none}
  open lib use {
    LibraryCall, IsRaw, Storage, LibraryError, runtime_error, dispatch_library, sudo, sudo_as,
  }

  -- What is documented of the origins and of Sudo: the call that it carries runs with the origin of
  -- root, or of the named account, or not at all. Only root can write to the storage of another
  -- pallet, and only with the raw calls of the System pallet.
  pub record LibraryLaws (root : Origin) (signed_by : AccountId → Origin) : Type 0 where
    pub signs : (who : AccountId) → ensure_signed (signed_by who) ≡ ok who
    pub root_not_signed : ensure_signed root ≡ err bad_origin
    pub root_not_none : ensure_none root ≡ err bad_origin
    pub library_keeps :
        (c : LibraryCall) (origin : Origin) (w v : Whole AccountId Storage)
        → Leaves (dispatch_library c origin w) v
        → (v.pallets ≡ w.pallets) ⊎ ((origin ≡ root) × IsRaw c)
    pub sudo_runs :
        (f : Origin → Whole AccountId Storage → Dispatch LibraryError (Whole AccountId Storage))
        (origin : Origin) (w v : Whole AccountId Storage)
        → Leaves (sudo f origin w) v
        → (v.pallets ≡ w.pallets)
          ⊎ ((u : Whole AccountId Storage) × Leaves (f root w) u × (v.pallets ≡ u.pallets))
    pub sudo_as_runs :
        (who : AccountId)
        (f : Origin → Whole AccountId Storage → Dispatch LibraryError (Whole AccountId Storage))
        (origin : Origin) (w v : Whole AccountId Storage)
        → Leaves (sudo_as who f origin w) v
        → (v.pallets ≡ w.pallets)
          ⊎ ((u : Whole AccountId Storage) × Leaves (f (signed_by who) w) u
              × (v.pallets ≡ u.pallets))

  module _ {Public Signature : Type 0} where
    unfoldable pub dispatch_whole :
        WholeCall AccountId LibraryCall Public Signature
        → Origin
        → Whole AccountId Storage
        → Dispatch LibraryError (Whole AccountId Storage)
    dispatch_whole (own c) origin w =
        lifted runtime_error (λ t. record w { pallets = t }) (dispatch sys c origin w.pallets)
    dispatch_whole (library_call c) origin w = dispatch_library c origin w
    dispatch_whole (sudo_call c) origin w = sudo (dispatch_whole c) origin w
    dispatch_whole (sudo_as_call who c) origin w = sudo_as who (dispatch_whole c) origin w

    abbrev pub IsWholeEncodable : WholeCall AccountId LibraryCall Public Signature → Type 0
    IsWholeEncodable (own c) = IsEncodable c
    IsWholeEncodable (library_call c) = Unit
    IsWholeEncodable (sudo_call c) = IsWholeEncodable c
    IsWholeEncodable (sudo_as_call who c) = IsWholeEncodable c

    -- A call under which no raw call is dispatched as root; whether it is so dispatched itself is
    -- said first.
    abbrev pub IsRawFree : Bool → WholeCall AccountId LibraryCall Public Signature → Type 0
    IsRawFree as_root (own c) = Unit
    IsRawFree true (library_call c) = ¬ IsRaw c
    IsRawFree false (library_call c) = Unit
    IsRawFree as_root (sudo_call c) = IsRawFree true c
    IsRawFree as_root (sudo_as_call who c) = IsRawFree false c

    module _ (verify_ocw : Payload Public → Signature → Bool)
        (verify_example : PricePayload Public → Signature → Bool) where
      -- A chain of the whole runtime; `calls` are those of the unsigned transactions that were
      -- accepted, the last one first. Of the pallets, OcwDemo and OcwExample alone validate any.
      pub data WholeRun (w₀ : Whole AccountId Storage)
          : List (RuntimeCall Public Signature) → Whole AccountId Storage → Type 0 where
        begins : WholeRun w₀ [] w₀
        new_block :
            {l : List (RuntimeCall Public Signature)} {w : Whole AccountId Storage} (b : ℕ)
            (library : Storage)
            → WholeRun w₀ l w
            → w.pallets.example.block_number < b
            → WholeRun w₀ l (record { pallets = set_block_number b w.pallets; library = library })
        -- The library pallets change their storage: inherents, fees, hooks.
        inside :
            {l : List (RuntimeCall Public Signature)} {w : Whole AccountId Storage}
            (library : Storage)
            → WholeRun w₀ l w
            → WholeRun w₀ l (record { pallets = w.pallets; library = library })
        -- A signed transaction is applied or fails, whatever call it carries.
        sent :
            {l : List (RuntimeCall Public Signature)} {w v : Whole AccountId Storage}
            (c : WholeCall AccountId LibraryCall Public Signature) (origin : Origin)
            (who : AccountId)
            → WholeRun w₀ l w
            → IsWholeEncodable c
            → ensure_signed origin ≡ ok who
            → Leaves (dispatch_whole c origin w) v
            → WholeRun w₀ l v
        -- An unsigned transaction is validated and applied.
        accepted :
            {l : List (RuntimeCall Public Signature)} {w v : Whole AccountId Storage}
            {valid : ValidTransaction RuntimeTag} (c : RuntimeCall Public Signature)
            (origin : Origin)
            → WholeRun w₀ l w
            → IsEncodable c
            → validate_unsigned sys verify_ocw verify_example w.pallets c ≡ ok valid
            → dispatch_whole (own c) origin w ≡ done v
            → WholeRun w₀ (c ∷ l) v
        -- An unsigned transaction fails.
        dropped :
            {l : List (RuntimeCall Public Signature)} {w v : Whole AccountId Storage}
            {e : DispatchError LibraryError} (c : RuntimeCall Public Signature) (origin : Origin)
            → WholeRun w₀ l w
            → dispatch_whole (own c) origin w ≡ failed e v
            → WholeRun w₀ l v

      -- No raw call is dispatched as root in any of the transactions.
      abbrev pub HasNoRawWrites :
          {w₀ w : Whole AccountId Storage} {l : List (RuntimeCall Public Signature)}
          → WholeRun w₀ l w
          → Type 0
      HasNoRawWrites begins = Unit
      HasNoRawWrites (new_block b library r later) = HasNoRawWrites r
      HasNoRawWrites (inside library r) = HasNoRawWrites r
      HasNoRawWrites (sent c origin who r encodable sig left) = HasNoRawWrites r × IsRawFree false c
      HasNoRawWrites (accepted c origin r encodable valid e) = HasNoRawWrites r
      HasNoRawWrites (dropped c origin r e) = HasNoRawWrites r
