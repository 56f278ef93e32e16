-- ===== src/Offchain/Pool.antt =====
-- What the transaction pool gains in a run, and what is documented of the host and the signer there.
use mathlib.Core.List.{append_assoc}
use substrate_node_template.Common.{
  All-append, ℕ, ◌≡◌, sym, ap, ◌∙◌, Bool, true, String, List, [], ◌++◌, All, All-map,
}
use substrate_node_template.Offchain.{Host, Submitter, Submitted, signed_tx, unsigned_tx}

-- From `w` to `w'` the pool gains calls that satisfy `P`, and nothing else.
abbrev pub Adds :
    {World Call : Type 0} → (World → List Call) → (Call → Type 0) → World → World → Type 0
Adds {Call = Call} pool P w w' = (new : List Call) × (pool w' ≡ new ++ pool w) × All P new

module _ {World Call : Type 0} (pool : World → List Call) where
  pub Adds-Keeps : {P : Call → Type 0} (w w' : World) → pool w' ≡ pool w → Adds pool P w w'
  Adds-Keeps w w' e = ([], e, tt)

  pub Adds-map :
      {P Q : Call → Type 0} {w w₁ w₂ w' : World}
      → ((c : Call) → P c → Q c)
      → pool w₁ ≡ pool w
      → w₂ ≡ w'
      → Adds pool P w₁ w₂
      → Adds pool Q w w'
  Adds-map f start end (new, grown, all) =
      (new, ap pool (sym end) ∙ grown ∙ ap (λ l. new ++ l) start, All-map new f all)

  pub Adds-trans :
      {P : Call → Type 0} {w w₁ w₂ : World}
      → Adds pool P w w₁
      → Adds pool P w₁ w₂
      → Adds pool P w w₂
  Adds-trans {P} {w} (new, grown, all) (new', grown', all') = (
    new' ++ new,
    grown' ∙ ap (λ l. new' ++ l) grown ∙ sym (append_assoc new' new (pool w)),
    All-append P new' new all' all,
  )

-- Reading the clock and HTTP leave alone what `view` shows of the world.
pub record HostLaws {V : Type 0} (host : Host) (view : Host.World host → V) : Type 0 where
  pub timestamp_keeps : (w : Host.World host) → view (Host.timestamp host w).1 ≡ view w
  pub send_keeps :
      (url : String) (d : ℕ) (w : Host.World host) → view (Host.send host url d w).1 ≡ view w
  pub wait_keeps :
      (p : Host.Pending host) (d : ℕ) (w : Host.World host)
      → view (Host.try_wait host p d w).1 ≡ view w
  pub body_keeps :
      (r : Host.Response host) (w : Host.World host) → view (Host.body host r w).1 ≡ view w

-- What `embed` makes of the values that satisfy `P`.
abbrev pub Image : {A B : Type 0} → (A → B) → (A → Type 0) → B → Type 0
Image {A} embed P b = (a : A) × (b ≡ embed a) × P a

-- Each way to send puts only transactions into the pool that were built from what was given, signed
-- ones or unsigned ones as its name says, payloads signed so that `verify` accepts them. They carry
-- calls of the runtime, which `embed` makes of the pallet's: `call.into()`.
pub record SubmitterLaws {World Public Signature Call Payload C : Type 0}
    (submitter : Submitter World Public Signature Call Payload)
    (verify : Payload → Signature → Bool) (embed : Call → C) (pool : World → List (Submitted C))
    : Type 0 where
  pub signed_all_adds :
      (f : Submitter.Account submitter → Call) (w : World)
      → Adds pool
          (λ c. (a : Submitter.Account submitter) × (c ≡ signed_tx (embed (f a))))
          w
          (Submitter.send_signed_all submitter f w).1
  pub signed_any_adds :
      (f : Submitter.Account submitter → Call) (w : World)
      → Adds pool
          (λ c. (a : Submitter.Account submitter) × (c ≡ signed_tx (embed (f a))))
          w
          (Submitter.send_signed_any submitter f w).1
  pub any_adds :
      (f : Submitter.Account submitter → Payload) (g : Payload → Signature → Call) (w : World)
      → Adds pool
          (λ c.
            (a : Submitter.Account submitter) × (s : Signature) × (verify (f a) s ≡ true)
            × (c ≡ unsigned_tx (embed (g (f a) s))))
          w
          (Submitter.send_unsigned_any submitter f g w).1
  pub all_adds :
      (f : Submitter.Account submitter → Payload) (g : Payload → Signature → Call) (w : World)
      → Adds pool
          (λ c.
            (a : Submitter.Account submitter) × (s : Signature) × (verify (f a) s ≡ true)
            × (c ≡ unsigned_tx (embed (g (f a) s))))
          w
          (Submitter.send_unsigned_all submitter f g w).1
  pub submit_adds :
      (c : Call) (w : World)
      → Adds pool (λ d. d ≡ unsigned_tx (embed c)) w (Submitter.submit_unsigned submitter c w).1
