-- ===== src/Ocw/Json.antt =====
-- `HackerNewsInfo` read from JSON: `#[derive(Deserialize)]` with `de_string_to_bytes`.
pub mod Escapes
use substrate_node_template.Common.{ℕ, Bool, String, Option, none, some, List}
use substrate_node_template.Ocw.Types.{HackerNewsInfo}

-- serde_json and serde_derive, with their errors forgotten: a text as a document, the fields of an
-- object, and what a value is read as. Texts are kept as their bytes.
pub record Serde : Type 1 where
  pub Document : Type 0
  pub Value : Type 0
  pub parse : List ℕ → Option Document
  pub field : Document → String → Option Value
  -- <&str as Deserialize>::deserialize and <u32 as Deserialize>::deserialize
  pub as_str : Value → Option (List ℕ)
  pub as_u32 : Value → Option ℕ

module _ {A B : Type 0} where
  abbrev pub and_also : Option A → (A → Option B) → Option B
  and_also none f = none
  and_also (some a) f = f a

module _ (serde : Serde) where
  open serde use {Document, Value, parse, field, as_str, as_u32}

  abbrev pub de_string_to_bytes : Value → Option (List ℕ)
  de_string_to_bytes de = and_also (as_str de) λ s. some s

  abbrev pub text_field : Document → String → Option (List ℕ)
  text_field doc name = and_also (field doc name) de_string_to_bytes

  abbrev pub info_of : Document → Option HackerNewsInfo
  info_of doc = and_also (text_field doc "by") λ by. and_also (text_field doc "title") λ title.
      and_also (text_field doc "url") λ url.
        and_also (and_also (field doc "descendants") as_u32) λ descendants.
          some (record { by = by; title = title; url = url; descendants = descendants })

  -- `serde_json::from_str::<HackerNewsInfo>`
  unfoldable pub info_from_json : List ℕ → Option HackerNewsInfo
  info_from_json text = and_also (parse text) info_of
