-- ===== src/Attachments/References.antt =====
-- VOID0000-api/server/attachments/lifecycleCore.ts: `parseAttachmentDescriptor` and
-- `extractProtectedAttachmentIds`. What the functions of the language answer about a text (`trim`,
-- `startsWith`, `JSON.parse`, the match against the path of a protected attachment) is the
-- argument `texts`; a text is a number and the empty one is 0.
pub mod Distinct
use voidchats_note2ee.Common.{
  ℕ, Bool, not, Option, none, some, List, [], ◌∷◌, ◌==◌, ltb, if◌then◌else◌, length, includes,
}
use voidchats_note2ee.Attachments.Rows.{
  Verdict, given, failed, ◌>>=◌, attachments_invalid, attachment_limit_exceeded,
  attachment_duplicate, reference_invalid, reference_external,
}

-- A descriptor's members where they are texts.
pub record Descriptor : Type 0 where
  pub fallback_url : Option ℕ
  pub url : Option ℕ

pub data Json : Type 0 where
  malformed not_a_record : Json
  a_record : Descriptor → Json

pub record Texts : Type 0 where
  pub trim : ℕ → ℕ
  -- the text starts with `{` or `[`
  pub is_json_like : ℕ → Bool
  pub parse_json : ℕ → Json
  -- the text starts with `/api/`
  pub is_api_path : ℕ → Bool
  -- the lowercase identifier in PROTECTED_ATTACHMENT_PATH_PATTERN
  pub protected_id : ℕ → Option ℕ

-- An element of the submitted array: a text, or anything else.
pub data Raw : Type 0 where
  a_text : ℕ → Raw
  no_text : Raw

pub data RawList : Type 0 where
  no_array : RawList
  an_array : List Raw → RawList

module _ (texts : Texts) where
  abbrev pub plain_url : Descriptor → ℕ
  plain_url d = elim d.url [ none ↦ 0 | some u ↦ texts.trim u ]

  abbrev pub stable_url : Descriptor → ℕ
  stable_url d = elim d.fallback_url [
    | none ↦ plain_url d
    | some f ↦ if texts.trim f == 0 then plain_url d else texts.trim f
  ]

  abbrev pub read_descriptor : ℕ → Verdict Descriptor
  read_descriptor raw =
      if texts.is_json_like raw
      then elim (texts.parse_json raw) [
        | malformed ↦ failed 400 reference_invalid
        | not_a_record ↦ failed 400 reference_invalid
        | a_record d ↦ given d
      ]
      else given (record { fallback_url = none; url = some raw })

  abbrev pub protected_upload : ℕ → Verdict ℕ
  protected_upload url =
      if not (texts.is_api_path url)
      then failed 400 reference_external
      else elim (texts.protected_id url) [ none ↦ failed 400 reference_invalid | some a ↦ given a ]

  unfoldable pub parse_attachment_descriptor : Raw → Verdict ℕ
  parse_attachment_descriptor no_text = failed 400 reference_invalid
  parse_attachment_descriptor (a_text t) =
      if texts.trim t == 0
      then failed 400 reference_invalid
      else read_descriptor (texts.trim t) >>= λ d. protected_upload (stable_url d)

  unfoldable pub parse_all : List Raw → Verdict (List ℕ)
  parse_all [] = given []
  parse_all (r ∷ rs) =
      parse_attachment_descriptor r >>= λ a. parse_all rs >>= λ rest. given (a ∷ rest)

  -- The loop over the references with the identifiers seen so far.
  abbrev pub check_distinct : (seen : List ℕ) → List ℕ → Verdict (List ℕ)
  check_distinct seen [] = given []
  check_distinct seen (a ∷ ids) =
      let rest = check_distinct (a ∷ seen) ids in
      if includes a seen then failed 400 attachment_duplicate else rest >>= λ more. given (a ∷ more)

  unfoldable pub extract_protected_attachment_ids : RawList → Verdict (List ℕ)
  extract_protected_attachment_ids no_array = failed 400 attachments_invalid
  extract_protected_attachment_ids (an_array raws) =
      if ltb 5 (length raws)
      then failed 400 attachment_limit_exceeded
      else parse_all raws >>= check_distinct []
