-- ===== src/Evidence.antt =====
-- frontend/src/features/runs/EvidenceBrowser.tsx: the media in the messages of a sample, and the object
-- URLs by which they are shown. A value of JSON is what the code tells apart: a text, an array, an
-- object or anything else; in an object each key stands once.
pub mod Urls
pub mod Tracking
pub mod Revoked
pub mod Filters
pub mod Paging
mod Examples
use llm_evaluation.Prelude.{
  Bool, true, false, ◌&&◌, if◌then◌else◌, Option, none, some, List, [], ◌∷◌, ◌++◌, map, Text, codes,
  text_eq, includes,
}

mutual
  pub data Json : Type 0 where
    text : Text → Json
    array : Items → Json
    object : Entries → Json
    other : Json

  pub data Items : Type 0 where
    no_items : Items
    item : Json → Items → Items

  pub data Entries : Type 0 where
    no_entries : Entries
    entry : Text → Json → Entries → Entries

pub data MediaKind : Type 0 where
  image audio video file : MediaKind

pub record EvidenceMedia : Type 0 where
  pub asset_id : Text
  pub kind : MediaKind
  pub mime_type : Text

-- `record[key]` of an object; other values have none of the keys that are asked for.
unfoldable pub find_key : Text → Entries → Option Json
find_key key no_entries = none
find_key key (entry k v rest) = if text_eq k key then some v else find_key key rest

unfoldable pub field : Text → Json → Option Json
field key (object entries) = find_key key entries
field key _ = none

unfoldable pub text_of : Option Json → Option Text
text_of (some (text t)) = some t
text_of _ = none

unfoldable pub items_of : Option Json → Items
items_of (some (array items)) = items
items_of _ = no_items

-- `["image", "audio", "video", "file"].includes(String(record.type))`, for a type that is a text.
unfoldable pub media_kind : Option Text → Option MediaKind
media_kind none = none
media_kind (some t) =
    if text_eq t (codes "image")
    then some image
    else (if text_eq t (codes "audio")
        then some audio
        else (if text_eq t (codes "video")
            then some video
            else (if text_eq t (codes "file") then some file else none)))

unfoldable pub media : Option Text → Option MediaKind → Option Text → List EvidenceMedia
media (some asset) (some kind) (some mime) =
    record { asset_id = asset; kind = kind; mime_type = mime } ∷ []
media _ _ _ = []

unfoldable pub source_asset : Option Json → Option Text
source_asset none = none
source_asset (some source) = text_of (field (codes "asset_id") source)

unfoldable pub part_media : Json → List EvidenceMedia
part_media part =
    media (source_asset (field (codes "source") part))
      (media_kind (text_of (field (codes "type") part))) (text_of (field (codes "mime_type") part))

unfoldable pub parts_media : Items → List EvidenceMedia
parts_media no_items = []
parts_media (item part parts) = part_media part ++ parts_media parts

unfoldable pub messages_media : Items → List EvidenceMedia
messages_media no_items = []
messages_media (item message messages) =
    parts_media (items_of (field (codes "content") message)) ++ messages_media messages

-- `evidenceMedia`, on the snapshot of the input.
unfoldable pub evidence_media : Json → List EvidenceMedia
evidence_media input_snapshot = messages_media (items_of (field (codes "messages") input_snapshot))
