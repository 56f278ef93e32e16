-- ===== src/Tests/Json.antt =====
-- A response with an escaped quotation mark.
use Prim.Native.String.{compare}
use Prim.Native.Nat.{Ordering}
use substrate_node_template.Common.{
  inr, ℕ, ◌≡◌, inl, refl, Bool, true, false, if◌then◌else◌, String, Option, none, some, List, [],
  ◌∷◌, err, arith, from_utf8,
}
use substrate_node_template.Offchain.{Host}
use substrate_node_template.Ocw.Types.{deserialize_to_obj_error}
use substrate_node_template.Ocw.Fetch.{parse_info}
use substrate_node_template.Ocw.Json.{Serde, info_from_json}
use substrate_node_template.Ocw.Json.Escapes.{EscapeLaws, escaped_refused}
use substrate_node_template.Tests.Mock.{
  Entry, text_entry, number_entry, mock_serde, mock_host, World,
}

abbrev quiet_host : Host
quiet_host = mock_host ℕ ℕ 200 []

abbrev quiet : World ℕ ℕ
quiet = record { pool = []; value = none }

abbrev is : String → String → Bool
is s t = elim (compare s t) [ Ordering.eq ↦ true | _ ↦ false ]

-- An answer whose title has an escaped quotation mark, and one without.
abbrev entries : Bool → String → Option Entry
entries escaped name =
    if is name "title"
    then some (text_entry escaped (b'y' ∷ []))
    else if is name "by"
    then some (text_entry false (b'x' ∷ []))
    else if is name "url"
    then some (text_entry false [])
    else some (number_entry 3)

abbrev HasEscape : Entry → Type 0
HasEscape (text_entry escaped s) = escaped ≡ true
HasEscape (number_entry n) = ⊥

abbrev braces : List ℕ
braces = b'{' ∷ b'}' ∷ []

escape_laws : EscapeLaws (mock_serde (entries true)) HasEscape
escape_laws = record { not_borrowed = unread }
  where
    unread : (v : Entry) → HasEscape v → Serde.as_str (mock_serde (entries true)) v ≡ none
    unread (text_entry true s) h = refl
    unread (text_entry false s) h = absurd (ground arith)
    unread (number_entry n) h = absurd h

escaped_refused_example :
    parse_info quiet_host (info_from_json (mock_serde (entries true))) braces quiet
    ≡ some (err deserialize_to_obj_error, quiet)
unfolding from_utf8
escaped_refused_example =
    escaped_refused (mock_serde (entries true)) quiet_host HasEscape escape_laws braces braces
      (entries true) "title" (text_entry true (b'y' ∷ [])) quiet refl refl (inr (inl refl)) refl
      refl
