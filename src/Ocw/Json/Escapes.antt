-- ===== src/Ocw/Json/Escapes.antt =====
-- Which answers the worker can read.
use substrate_node_template.Common.{
  ℕ, ◌≡◌, ◌↔◌, ◌≢◌, ◌∙◌, ap, ok_or, Option-cases, refl, ◌⊎◌, inl, inr, String, Option, none, some,
  List, ok, err, arith, from_utf8,
}
use substrate_node_template.Offchain.{Host}
use substrate_node_template.Ocw.Types.{HackerNewsInfo, deserialize_to_obj_error}
use substrate_node_template.Ocw.Fetch.{parse_info}
use substrate_node_template.Ocw.Json.{
  Serde, and_also, de_string_to_bytes, text_field, info_of, info_from_json,
}

-- What is documented of serde_json: a text borrowed from the document is not given for a string that
-- is written with an escape sequence, such as `\"`.
pub record EscapeLaws (serde : Serde) (Escaped : Serde.Value serde → Type 0) : Type 0 where
  pub not_borrowed : (v : Serde.Value serde) → Escaped v → Serde.as_str serde v ≡ none

also_some :
    {A B : Type 0} (o : Option A) (f : A → Option B) (b : B)
    → and_also o f ≡ some b
    → (a : A) × (o ≡ some a) × (f a ≡ some b)
also_some none f b e = absurd (ground arith)
also_some (some a) f b e = (a, refl, e)

module _ (serde : Serde) (host : Host) where
  open serde use {Document, Value, parse, field, as_u32}
  open host use {World}

  -- The document has the four fields of some information, three of them texts.
  abbrev pub Describes : Document → HackerNewsInfo → Type 0
  Describes doc info =
      (text_field serde doc "by" ≡ some info.by)
      × (text_field serde doc "title" ≡ some info.title)
      × (text_field serde doc "url" ≡ some info.url)
      × ((v : Value) × (field doc "descendants" ≡ some v) × (as_u32 v ≡ some info.descendants))

  info_of-Describes :
      (doc : Document) (info : HackerNewsInfo) → info_of serde doc ≡ some info → Describes doc info
  info_of-Describes doc info e =
      let (by, has_by, e₁) = also_some (text_field serde doc "by") _ info e in
      let (title, has_title, e₂) = also_some (text_field serde doc "title") _ info e₁ in
      let (url, has_url, e₃) = also_some (text_field serde doc "url") _ info e₂ in
      let (descendants, has_descendants, e₄) =
        also_some (and_also (field doc "descendants") as_u32) _ info e₃ in
      let (v, here, read) =
        also_some (field doc "descendants") as_u32 descendants has_descendants in
      (
        ground (arith, has_by, e₄),
        ground (arith, has_title, e₄),
        ground (arith, has_url, e₄),
        (v, here, ground (arith, read, e₄)),
      )

  Describes-info_of :
      (doc : Document) (info : HackerNewsInfo) → Describes doc info → info_of serde doc ≡ some info
  Describes-info_of doc info (by, title, url, (v, here, read)) =
      rw (by, title, url, here, read) refl

  read_text :
      (bytes text : List ℕ) (w : World)
      → from_utf8 bytes ≡ some text
      → parse_info host (info_from_json serde) bytes w
        ≡ some (ok_or deserialize_to_obj_error (info_from_json serde text), w)
  unfolding parse_info
  read_text bytes text w utf8 = rw utf8 refl

  no_text :
      (bytes : List ℕ) (info : HackerNewsInfo) (w : World)
      → from_utf8 bytes ≡ none
      → parse_info host (info_from_json serde) bytes w ≢ some (ok info, w)
  unfolding parse_info
  no_text bytes info w bad e = ground arith

  missing :
      (doc : Document) (name : String)
      → (name ≡ "by") ⊎ ((name ≡ "title") ⊎ (name ≡ "url"))
      → text_field serde doc name ≡ none
      → info_of serde doc ≡ none
  missing doc name which h = elim (Option-cases (info_of serde doc)) [
    | inl refused ↦ refused
    | inr (info, e) ↦
        let (by, title, url, _) = info_of-Describes doc info e in
        absurd (elim which [
          | inl same ↦ ground (arith, rw same at h)
          | inr (inl same) ↦ ground (arith, rw same at h)
          | inr (inr same) ↦ ground (arith, rw same at h)
        ])
  ]

  -- A response is read as some information exactly if it is UTF-8 text of a JSON object that has the
  -- three texts, each borrowed from the document, and the number of the information in its fields.
  pub parse_info_ok_iff :
      (bytes : List ℕ) (info : HackerNewsInfo) (w : World)
      → (parse_info host (info_from_json serde) bytes w ≡ some (ok info, w)) ↔ (
          (text : List ℕ) × (doc : Document) × (from_utf8 bytes ≡ some text)
          × (parse text ≡ some doc)
          × Describes doc info)
  unfolding info_from_json
  parse_info_ok_iff bytes info w = (
    (λ e. elim (Option-cases (from_utf8 bytes)) [
      | inl bad ↦ absurd (no_text bytes info w bad e)
      | inr (text, utf8) ↦
          let read : ok_or deserialize_to_obj_error (info_from_json serde text) ≡ ok info =
            ground (arith, read_text bytes text w utf8) in
          let got : info_from_json serde text ≡ some info = ground (arith, read) in
          let (doc, json, described) = also_some (parse text) (info_of serde) info got in
          (text, doc, utf8, json, info_of-Describes doc info described)
    ]),
    (λ (text, doc, utf8, json, described).
        read_text bytes text w utf8
        ∙ ap (λ o. some (ok_or deserialize_to_obj_error o, w))
            (ap (λ d. and_also d (info_of serde)) json ∙ Describes-info_of doc info described)),
  )

  module _ (Escaped : Value → Type 0) (laws : EscapeLaws serde Escaped) where
    open laws use {not_borrowed}

    -- A response that is a JSON object is refused as no object of the struct if its title, its author
    -- or its URL is written with an escape sequence, whatever they say.
    pub escaped_refused :
        (bytes text : List ℕ) (doc : Document) (name : String) (v : Value) (w : World)
        → from_utf8 bytes ≡ some text
        → parse text ≡ some doc
        → (name ≡ "by") ⊎ ((name ≡ "title") ⊎ (name ≡ "url"))
        → field doc name ≡ some v
        → Escaped v
        → parse_info host (info_from_json serde) bytes w ≡ some (err deserialize_to_obj_error, w)
    unfolding info_from_json
    escaped_refused bytes text doc name v w utf8 json which here escaped =
        let unread : text_field serde doc name ≡ none =
          ap (λ o. and_also o (de_string_to_bytes serde)) here
          ∙ ap (λ o. and_also o some) (not_borrowed v escaped) in
        read_text bytes text w utf8
        ∙ ap (λ o. some (ok_or deserialize_to_obj_error o, w))
            (ap (λ d. and_also d (info_of serde)) json ∙ missing doc name which unread)
