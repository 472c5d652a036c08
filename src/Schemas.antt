-- ===== src/Schemas.antt =====
-- The validators of schemas/api.py: the requests that the handlers are given have passed them, and any
-- other is answered with 422 by the web framework. Texts are measured in code points.
pub mod Accepted
use hilforge.Base.{
  ℕ, Bool, true, false, String, Option, none, some, List, [], ◌∷◌, if◌then◌else◌, ◌&&◌, ◌||◌, leb,
  ◌==◌, all, length,
}
use hilforge.Text.{Codes, codes}
use hilforge.Domain.Rows.{RunSource}
use hilforge.Devices.{DeviceRegister}
use hilforge.Runs.Create.{RunCreate, contains}

-- `min_length` and `max_length`.
abbrev pub measures : ℕ → ℕ → String → Bool
measures least most text = leb least (length (codes text)) && leb (length (codes text)) most

-- An optional text: `None` passes.
optional_text : Option String → Bool
optional_text none = true
optional_text (some text) = measures 1 256 text

-- `[0-9a-fA-F]`.
unfoldable pub is_hex_digit : ℕ → Bool
is_hex_digit c =
    (leb b'0' c && leb c b'9') || (leb b'a' c && leb c b'f') || (leb b'A' c && leb c b'F')

-- `^[0-9a-fA-F]{7,64}$`.
unfoldable pub is_commit_sha : Codes → Bool
unfolding is_hex_digit
is_commit_sha sha = all is_hex_digit sha && leb 7 (length sha) && leb (length sha) 64

-- `RunSource`.
unfoldable pub accepts_source : RunSource → Bool
unfolding optional_text is_commit_sha
accepts_source source =
    optional_text source.repository
    && is_commit_sha (codes source.commit_sha)
    && optional_text source.ref
    && optional_text source.build_id

-- `set(values)`, as the values that are not met again.
unfoldable pub distinct_values : List ℕ → List ℕ
distinct_values [] = []
distinct_values (k ∷ ks) = let rest = distinct_values ks in if contains k ks then rest else k ∷ rest

-- `unique_device_ids` returns its value.
unfoldable pub unique_device_ids : Option (List ℕ) → Bool
unfolding distinct_values
unique_device_ids none = true
unique_device_ids (some ids) = length (distinct_values ids) == length ids

-- The bounds on the number of devices.
bounded_device_ids : Option (List ℕ) → Bool
bounded_device_ids none = true
bounded_device_ids (some ids) = leb 1 (length ids) && leb (length ids) 100

accepts_optional_source : Option RunSource → Bool
unfolding accepts_source
accepts_optional_source none = true
accepts_optional_source (some source) = accepts_source source

-- `RunCreate`.
unfoldable pub accepts_run : RunCreate → Bool
unfolding bounded_device_ids unique_device_ids accepts_optional_source
accepts_run request =
    bounded_device_ids request.device_ids
    && unique_device_ids request.device_ids
    && accepts_optional_source request.source

-- `DeviceRegister`; `is_url` is the `HttpUrl` of the schema library.
unfoldable pub accepts_device : (String → Bool) → DeviceRegister → Bool
accepts_device is_url registration =
    measures 1 100 registration.name
    && measures 1 100 registration.device_type
    && is_url registration.endpoint_url
