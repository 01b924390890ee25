-- ===== src/Attachments/EditPolicy.antt =====
-- VOID0000-api/server/attachments/editPolicy.ts: an edit of a message keeps its attachments. The
-- functions of the language on texts (`trim`, `JSON.parse`, the path of a URL and its match, the
-- template that puts a kind before a text) are the argument `texts`; the empty text is 0, and texts
-- are sorted as numbers.
use voidchats_note2ee.Common.{
  ℕ, ◌≡◌, ◌↔◌, refl, true, Option, none, some, List, [], ◌==◌, arith, if◌then◌else◌, map, sort,
  same_list, same_list_sound, same_list_refl, sort_iff, times,
}
use voidchats_note2ee.Attachments.References.{Descriptor, Json, malformed, not_a_record, a_record}

-- The prefix of an identity.
pub data IdentityKind : Type 0 where
  invalid legacy protected : IdentityKind

pub record EditTexts : Type 0 where
  pub trim : ℕ → ℕ
  pub parse_json : ℕ → Json
  -- the lowercase identifier in the path of a URL
  pub path_id : ℕ → Option ℕ
  -- `${kind}:${text}`
  pub tagged : IdentityKind → ℕ → ℕ

-- A stored or submitted attachment: a text, or another value, shown by `String`.
pub data Shown : Type 0 where
  text_value other_value : ℕ → Shown

abbrev pub shown_text : Shown → ℕ
shown_text (text_value t) = t
shown_text (other_value t) = t

-- What the body has for the attachments.
pub data Submitted : Type 0 where
  undefined no_list : Submitted
  a_list : List Shown → Submitted

pub data Preserved : Type 0 where
  preserved : List Shown → Preserved
  immutable : Preserved

-- Stored attachments that are no array count as none.
abbrev pub existing_of : Option (List Shown) → List Shown
existing_of none = []
existing_of (some stored) = stored

module _ (texts : EditTexts) where
  abbrev pub json_or_url : ℕ → Json → Descriptor
  json_or_url raw (a_record d) = d
  json_or_url raw not_a_record = record { fallback_url = none; url = some raw }
  json_or_url raw malformed = record { fallback_url = none; url = some raw }

  unfoldable pub parse_descriptor : Shown → Option Descriptor
  parse_descriptor (other_value t) = none
  parse_descriptor (text_value t) =
      if texts.trim t == 0
      then none
      else some (json_or_url (texts.trim t) (texts.parse_json (texts.trim t)))

  abbrev pub url_or_empty : Option ℕ → ℕ
  url_or_empty none = 0
  url_or_empty (some u) = texts.trim u

  abbrev pub stable_text : Descriptor → ℕ
  stable_text d =
      if url_or_empty d.fallback_url == 0 then url_or_empty d.url else url_or_empty d.fallback_url

  unfoldable pub get_attachment_identity : Shown → ℕ
  get_attachment_identity raw = elim (parse_descriptor raw) [
    | none ↦ texts.tagged invalid (shown_text raw)
    | some d ↦
        if stable_text d == 0
        then texts.tagged invalid (shown_text raw)
        else elim (texts.path_id (stable_text d)) [
          | some a ↦ texts.tagged protected a
          | none ↦ texts.tagged legacy (stable_text d)
        ]
  ]

  abbrev pub identities : List Shown → List ℕ
  identities = map get_attachment_identity

  abbrev pub get_sorted_identities : List Shown → List ℕ
  get_sorted_identities attachments = sort (identities attachments)

  unfoldable pub preserve_message_edit_attachments : Option (List Shown) → Submitted → Preserved
  preserve_message_edit_attachments stored undefined = preserved (existing_of stored)
  preserve_message_edit_attachments stored no_list = immutable
  preserve_message_edit_attachments stored (a_list submitted) =
      if same_list (get_sorted_identities (existing_of stored)) (get_sorted_identities submitted)
      then preserved (existing_of stored)
      else immutable

  -- A submitted list is accepted exactly when each identity is in it as often as in the stored list,
  -- in whatever order; and what an accepted edit leaves is the stored list.
  pub preserve_iff :
      (stored : Option (List Shown)) (submitted : List Shown)
      → (preserve_message_edit_attachments stored (a_list submitted)
          ≡ preserved (existing_of stored))
        ↔ ((t : ℕ) → times t (identities (existing_of stored)) ≡ times t (identities submitted))
  unfolding preserve_message_edit_attachments
  preserve_iff stored submitted = (
    λ h. (sort_iff (identities (existing_of stored)) (identities submitted)).0 (
        same_list_sound (get_sorted_identities (existing_of stored))
          (get_sorted_identities submitted) (ground (arith, h))),
    λ same.
        let sorted = (sort_iff (identities (existing_of stored)) (identities submitted)).1 same in
        let agree : same_list (get_sorted_identities (existing_of stored))
              (get_sorted_identities submitted)
            ≡ true =
          rw (sorted) (same_list_refl (get_sorted_identities submitted)) in
        rw (agree) refl,
  )
