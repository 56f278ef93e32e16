-- ===== src/ExampleOcw/Fetch.antt =====
-- `fetch_price`: one HTTP request within two seconds, and the price in its response.
use substrate_node_template.Common.{
  ℕ, String, Option, none, some, Result, err, ok_or, map_err, Run, ◌>>=◌, from_result, lift,
  unless_panic, from_utf8, ◌==◌, if◌then◌else◌,
}
use substrate_node_template.Offchain.{Host, HttpError, deadline_reached, io_error, unknown}
use substrate_node_template.ExampleOcw.Parse.{LiteJson, parse_price}

abbrev pub price_url : String
price_url = "https://min-api.cryptocompare.com/data/price?fsym=BTC&tsyms=USD"

module _ (host : Host) (json : LiteJson) where
  open host use {World, Pending, Response, timestamp, add_millis, send, try_wait, code, body}

  -- `None` of `parse_price` is an unknown error.
  abbrev pub found_price : Option (Option ℕ) → Option (Result HttpError ℕ)
  found_price none = none
  found_price (some r) = some (ok_or unknown r)

  -- The part of `fetch_price` after the status code: the body, as text, and its price.
  unfoldable pub read_price : Response → Run World HttpError ℕ
  read_price response = do
    bytes ← lift (body response)
    body_str ← from_result (ok_or unknown (from_utf8 bytes))
    unless_panic (found_price (parse_price json body_str))

  unfoldable pub fetch_price : Run World HttpError ℕ
  unfolding read_price
  fetch_price = do
    now ← lift timestamp
    let deadline = add_millis now 2_000
    sent ← lift (send price_url deadline)
    pending ← from_result (ok_or io_error sent)
    waited ← lift (try_wait pending deadline)
    received ← from_result (map_err (λ _. deadline_reached) waited)
    response ← from_result received
    if code response == 200 then read_price response else from_result (err unknown)
