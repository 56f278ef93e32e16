-- ===== src/Tests/Parse.antt =====
-- Prices with many decimals, and a worker's run on one.
use substrate_node_template.Common.{◌≤◌, ◌≡◌, ◌↔◌, refl, none, some, [], arith, pos}
use substrate_node_template.ExampleOcw.Parse.{parse_price, to_cents, usd_number}
use substrate_node_template.ExampleOcw.Parse.Panic.{parse_price_panics_iff}
use substrate_node_template.ExampleOcw.Parse.Print.{parse_price_written}
use substrate_node_template.Tests.Mock.{Number, mock_json}
use substrate_node_template.Tests.OracleWorker.{usd_is}

-- 65 digits after the point are read, 66 are not.
long_fractions :
    (parse_price (mock_json (usd_is 1 50 65)) [] ≡ some (some 100))
    × (parse_price (mock_json (usd_is 1 50 66)) [] ≡ none)
unfolding parse_price usd_number to_cents
long_fractions = (refl, refl)

parse_price_panics_iff_example :
    (parse_price (mock_json (usd_is 1 50 66)) [] ≡ none)
    ↔ ((num : Number) × (usd_number (mock_json (usd_is 1 50 66)) [] ≡ some num) × (66 ≤ num.places))
parse_price_panics_iff_example = parse_price_panics_iff (mock_json (usd_is 1 50 66)) []

-- 42949672.95000, the largest price
parse_price_written_example :
    parse_price (mock_json (usd_is 42949672 95000 5)) [] ≡ some (some 4294967295)
unfolding usd_number
parse_price_written_example =
    parse_price_written (mock_json (usd_is 42949672 95000 5)) []
      (record { whole = pos 42949672; digits = 95000; places = 5 }) 4294967295 3 refl (omega arith)
      (omega arith) (refl, refl, refl)
