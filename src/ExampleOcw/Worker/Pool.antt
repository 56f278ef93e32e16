-- ===== src/ExampleOcw/Worker/Pool.antt =====
-- The transaction pool during a run: what fetching and sending do to it.
use substrate_node_template.Common.{
  ℕ, ◌≡◌, refl, Option, none, some, List, arith, Result, ok, err, String, Run, ◌>>=◌, and_then,
  Keeps, Keeps-map_run_err,
}
use substrate_node_template.Offchain.{Host, Submitter}
use substrate_node_template.Offchain.Pool.{Adds, Adds-Keeps, HostLaws}
use substrate_node_template.ExampleOcw.Types.{Call, PricePayload}
use substrate_node_template.ExampleOcw.Parse.{LiteJson}
use substrate_node_template.ExampleOcw.Fetch.{fetch_price}
use substrate_node_template.ExampleOcw.Worker.{fetched}

module _ {Public Signature : Type 0} (host : Host) (json : LiteJson)
    (submitter : Submitter
      (Host.World host)
      Public
      Signature
      (Call Public Signature)
      (PricePayload Public))
    {C : Type 0} (pool : Host.World host → List C) (laws : HostLaws host pool) where
  open host use {World}
  open laws use {timestamp_keeps, send_keeps, wait_keeps, body_keeps}

  fetch_price-Keeps : Keeps pool (fetch_price host json)
  unfolding fetch_price
  fetch_price-Keeps w w' r e = grind (arith, timestamp_keeps, send_keeps, wait_keeps, body_keeps)

  fetched-Keeps : Keeps pool (fetched host json submitter)
  unfolding fetched
  fetched-Keeps = Keeps-map_run_err pool _ (fetch_price host json) fetch_price-Keeps

  -- A run that first fetches the price adds what it adds from there on.
  pub after_fetch :
      {P : C → Type 0} (k : ℕ → Run World String (Unit {0})) (w w' : World)
      (r : Result String (Unit {0}))
      → ((price : ℕ) (w₁ : World) → k price w₁ ≡ some (r, w') → pool w₁ ≡ pool w → Adds pool P w w')
      → (fetched host json submitter >>= k) w ≡ some (r, w')
      → Adds pool P w w'
  after_fetch {P} k w w' r add e = go (fetched host json submitter w) refl e
    where
      go :
          (q : Option (Result String ℕ × World))
          → fetched host json submitter w ≡ q
          → and_then q k ≡ some (r, w')
          → Adds pool P w w'
      go none h h' = absurd (ground arith)
      go (some (err x, w₁)) h h' =
          Adds-Keeps pool w w' (ground (arith, fetched-Keeps w w₁ (err x) h))
      go (some (ok price, w₁)) h h' = add price w₁ h' (fetched-Keeps w w₁ (ok price) h)
