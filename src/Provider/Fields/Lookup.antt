-- ===== src/Provider/Fields/Lookup.antt =====
-- Looking a member up after others were put.
use neural_plus.Prelude.{Bytes, same, ◌≡◌, refl, ◌∙◌, false, Option, none, some}
use neural_plus.Json.{JsonValue, Members, find_member, put_member}
use neural_plus.Json.Lookup.{find_member-put_member}
use neural_plus.Provider.Fields.{put_optional}

-- Putting another key.
pub find_member-other :
    (asked key : Bytes) (v : JsonValue) (ms : Members)
    → same key asked ≡ false
    → find_member asked (put_member key v ms) ≡ find_member asked ms
find_member-other asked key v ms h = find_member-put_member asked key v ms ∙ rw h refl

pub find_member-put_optional :
    (asked key : Bytes) (v : Option JsonValue) (ms : Members)
    → same key asked ≡ false
    → find_member asked (put_optional key v ms) ≡ find_member asked ms
find_member-put_optional asked key none ms h = refl
find_member-put_optional asked key (some v) ms h = find_member-other asked key v ms h
