-- ===== src/Enums/Codes.antt =====
-- The stored codes of every enumeration, there and back.
use elidune_server.Prelude.{◌≡◌, refl, arith}
use elidune_server.Prelude.Int.{ℤ, pos}
use elidune_server.Enums.Decode.{Decodes, decode-Decodes}
use elidune_server.Enums.{
  Lang, Genre, Occupation, StaffType, EquipmentType, EquipmentStatus, EventType, lang_into_i16,
  lang_from_i16, lang_codes, genre_into_i16, genre_from_i16, genre_codes, occupation_into_i16,
  occupation_from_i16, occupation_codes, staff_type_into_i16, staff_type_from_i16, staff_type_codes,
  equipment_type_into_i16, equipment_type_from_i16, equipment_type_codes, equipment_status_into_i16,
  equipment_status_from_i16, equipment_status_codes, event_type_into_i16, event_type_from_i16,
  event_type_codes,
}

lang_round_trip : (x : Lang) → lang_from_i16 (pos (lang_into_i16 x)) ≡ x
unfolding lang_from_i16 lang_into_i16
lang_round_trip Lang.unknown = refl
lang_round_trip Lang.fr = refl
lang_round_trip Lang.en = refl
lang_round_trip Lang.de = refl
lang_round_trip Lang.jp = refl
lang_round_trip Lang.es = refl
lang_round_trip Lang.po = refl

lang-Decodes : (v : ℤ) → Decodes lang_into_i16 Lang.unknown lang_from_i16 v
unfolding lang_from_i16 lang_into_i16 lang_codes
lang-Decodes = decode-Decodes lang_into_i16 Lang.unknown lang_codes (omega arith)

genre_round_trip : (x : Genre) → genre_from_i16 (pos (genre_into_i16 x)) ≡ x
unfolding genre_from_i16 genre_into_i16
genre_round_trip Genre.unknown = refl
genre_round_trip Genre.litterature_general = refl
genre_round_trip Genre.litterature_fiction = refl
genre_round_trip Genre.litterature_comic = refl
genre_round_trip Genre.litterature_theatre = refl
genre_round_trip Genre.litterature_poem = refl
genre_round_trip Genre.litterature_philosophy = refl
genre_round_trip Genre.litterature_religion = refl
genre_round_trip Genre.litterature_social_sciences = refl
genre_round_trip Genre.litterature_languages = refl
genre_round_trip Genre.litterature_sciences = refl
genre_round_trip Genre.litterature_technical = refl
genre_round_trip Genre.litterature_art = refl
genre_round_trip Genre.litterature_sport = refl
genre_round_trip Genre.litterature_litterature = refl
genre_round_trip Genre.litterature_history = refl
genre_round_trip Genre.litterature_geography = refl
genre_round_trip Genre.litterature_other = refl
genre_round_trip Genre.audio_unknown = refl
genre_round_trip Genre.audio_jazz = refl
genre_round_trip Genre.audio_blues = refl
genre_round_trip Genre.audio_rock = refl
genre_round_trip Genre.audio_world = refl
genre_round_trip Genre.audio_classical = refl
genre_round_trip Genre.video_unknown = refl
genre_round_trip Genre.video_fiction = refl
genre_round_trip Genre.video_history = refl
genre_round_trip Genre.video_art = refl
genre_round_trip Genre.video_documentary = refl
genre_round_trip Genre.video_musical = refl

genre-Decodes : (v : ℤ) → Decodes genre_into_i16 Genre.unknown genre_from_i16 v
unfolding genre_from_i16 genre_into_i16 genre_codes
genre-Decodes = decode-Decodes genre_into_i16 Genre.unknown genre_codes (omega arith)

occupation_round_trip : (x : Occupation) → occupation_from_i16 (pos (occupation_into_i16 x)) ≡ x
unfolding occupation_from_i16 occupation_into_i16
occupation_round_trip Occupation.unknown = refl
occupation_round_trip Occupation.farm = refl
occupation_round_trip Occupation.crafts = refl
occupation_round_trip Occupation.frameworks = refl
occupation_round_trip Occupation.intermediate = refl
occupation_round_trip Occupation.operative = refl
occupation_round_trip Occupation.workmen = refl
occupation_round_trip Occupation.reprocessed = refl
occupation_round_trip Occupation.other = refl

occupation-Decodes : (v : ℤ) → Decodes occupation_into_i16 Occupation.unknown occupation_from_i16 v
unfolding occupation_from_i16 occupation_into_i16 occupation_codes
occupation-Decodes =
    decode-Decodes occupation_into_i16 Occupation.unknown occupation_codes (omega arith)

staff_type_round_trip : (x : StaffType) → staff_type_from_i16 (pos (staff_type_into_i16 x)) ≡ x
unfolding staff_type_from_i16 staff_type_into_i16
staff_type_round_trip StaffType.employee = refl
staff_type_round_trip StaffType.volunteer = refl

staff_type-Decodes : (v : ℤ) → Decodes staff_type_into_i16 StaffType.employee staff_type_from_i16 v
unfolding staff_type_from_i16 staff_type_into_i16 staff_type_codes
staff_type-Decodes =
    decode-Decodes staff_type_into_i16 StaffType.employee staff_type_codes (omega arith)

equipment_type_round_trip :
    (x : EquipmentType) → equipment_type_from_i16 (pos (equipment_type_into_i16 x)) ≡ x
unfolding equipment_type_from_i16 equipment_type_into_i16
equipment_type_round_trip EquipmentType.computer = refl
equipment_type_round_trip EquipmentType.tablet = refl
equipment_type_round_trip EquipmentType.e_reader = refl
equipment_type_round_trip EquipmentType.other = refl

equipment_type-Decodes :
    (v : ℤ) → Decodes equipment_type_into_i16 EquipmentType.other equipment_type_from_i16 v
unfolding equipment_type_from_i16 equipment_type_into_i16 equipment_type_codes
equipment_type-Decodes =
    decode-Decodes equipment_type_into_i16 EquipmentType.other equipment_type_codes (omega arith)

equipment_status_round_trip :
    (x : EquipmentStatus) → equipment_status_from_i16 (pos (equipment_status_into_i16 x)) ≡ x
unfolding equipment_status_from_i16 equipment_status_into_i16
equipment_status_round_trip EquipmentStatus.active = refl
equipment_status_round_trip EquipmentStatus.maintenance = refl
equipment_status_round_trip EquipmentStatus.retired = refl

equipment_status-Decodes :
    (v : ℤ) → Decodes equipment_status_into_i16 EquipmentStatus.active equipment_status_from_i16 v
unfolding equipment_status_from_i16 equipment_status_into_i16 equipment_status_codes
equipment_status-Decodes =
    decode-Decodes equipment_status_into_i16 EquipmentStatus.active equipment_status_codes
      (omega arith)

event_type_round_trip : (x : EventType) → event_type_from_i16 (pos (event_type_into_i16 x)) ≡ x
unfolding event_type_from_i16 event_type_into_i16
event_type_round_trip EventType.animation = refl
event_type_round_trip EventType.school_visit = refl
event_type_round_trip EventType.exhibition = refl
event_type_round_trip EventType.conference = refl
event_type_round_trip EventType.workshop = refl
event_type_round_trip EventType.show = refl
event_type_round_trip EventType.other = refl

event_type-Decodes : (v : ℤ) → Decodes event_type_into_i16 EventType.other event_type_from_i16 v
unfolding event_type_from_i16 event_type_into_i16 event_type_codes
event_type-Decodes =
    decode-Decodes event_type_into_i16 EventType.other event_type_codes (omega arith)

-- Every value of the seven enumerations is read back from its stored code.
pub codes_round_trip :
    ((x : Lang) → lang_from_i16 (pos (lang_into_i16 x)) ≡ x)
    × ((x : Genre) → genre_from_i16 (pos (genre_into_i16 x)) ≡ x)
    × ((x : Occupation) → occupation_from_i16 (pos (occupation_into_i16 x)) ≡ x)
    × ((x : StaffType) → staff_type_from_i16 (pos (staff_type_into_i16 x)) ≡ x)
    × ((x : EquipmentType) → equipment_type_from_i16 (pos (equipment_type_into_i16 x)) ≡ x)
    × ((x : EquipmentStatus) → equipment_status_from_i16 (pos (equipment_status_into_i16 x)) ≡ x)
    × ((x : EventType) → event_type_from_i16 (pos (event_type_into_i16 x)) ≡ x)
codes_round_trip = (
  lang_round_trip, genre_round_trip, occupation_round_trip, staff_type_round_trip,
  equipment_type_round_trip, equipment_status_round_trip, event_type_round_trip,
)

-- Any integer in such a column is read as the value that has it as its code, or else as the
-- default of its enumeration: no two codes are confused.
pub codes_decode :
    (v : ℤ)
    → Decodes lang_into_i16 Lang.unknown lang_from_i16 v
      × Decodes genre_into_i16 Genre.unknown genre_from_i16 v
      × Decodes occupation_into_i16 Occupation.unknown occupation_from_i16 v
      × Decodes staff_type_into_i16 StaffType.employee staff_type_from_i16 v
      × Decodes equipment_type_into_i16 EquipmentType.other equipment_type_from_i16 v
      × Decodes equipment_status_into_i16 EquipmentStatus.active equipment_status_from_i16 v
      × Decodes event_type_into_i16 EventType.other event_type_from_i16 v
codes_decode v = (
  lang-Decodes v,
  genre-Decodes v,
  occupation-Decodes v,
  staff_type-Decodes v,
  equipment_type-Decodes v,
  equipment_status-Decodes v,
  event_type-Decodes v,
)
