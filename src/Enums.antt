-- ===== src/Enums.antt =====
-- The enumerations that are stored as SMALLINT codes (src/models/enums.rs): `From<i16>` and the
-- cast back. A code is an `i16` that the database may hold, so any integer is decoded.
pub mod Codes
pub mod Decode
pub mod Media
use elidune_server.Prelude.{ℕ, List, [], ◌∷◌}
use elidune_server.Prelude.Int.{ℤ}
use elidune_server.Enums.Decode.{decode}

pub data Lang : Type 0 where
  unknown fr en de jp es po : Lang

pub lang_into_i16 : Lang → ℕ
lang_into_i16 Lang.unknown = 0
lang_into_i16 Lang.fr = 1
lang_into_i16 Lang.en = 2
lang_into_i16 Lang.de = 3
lang_into_i16 Lang.jp = 4
lang_into_i16 Lang.es = 5
lang_into_i16 Lang.po = 6

lang_codes : List (ℕ × Lang)
lang_codes =
    (1, Lang.fr) ∷ (2, Lang.en) ∷ (3, Lang.de) ∷ (4, Lang.jp) ∷ (5, Lang.es) ∷ (6, Lang.po) ∷ []

pub lang_from_i16 : ℤ → Lang
unfolding lang_codes
lang_from_i16 = decode lang_codes Lang.unknown

pub data Genre : Type 0 where
  unknown litterature_general litterature_fiction litterature_comic : Genre
  litterature_theatre litterature_poem litterature_philosophy : Genre
  litterature_religion litterature_social_sciences litterature_languages : Genre
  litterature_sciences litterature_technical litterature_art litterature_sport : Genre
  litterature_litterature litterature_history litterature_geography : Genre
  litterature_other audio_unknown audio_jazz audio_blues audio_rock audio_world : Genre
  audio_classical video_unknown video_fiction video_history video_art : Genre
  video_documentary video_musical : Genre

pub genre_into_i16 : Genre → ℕ
genre_into_i16 Genre.unknown = 0
genre_into_i16 Genre.litterature_general = 1
genre_into_i16 Genre.litterature_fiction = 2
genre_into_i16 Genre.litterature_comic = 3
genre_into_i16 Genre.litterature_theatre = 4
genre_into_i16 Genre.litterature_poem = 5
genre_into_i16 Genre.litterature_philosophy = 6
genre_into_i16 Genre.litterature_religion = 7
genre_into_i16 Genre.litterature_social_sciences = 8
genre_into_i16 Genre.litterature_languages = 9
genre_into_i16 Genre.litterature_sciences = 10
genre_into_i16 Genre.litterature_technical = 11
genre_into_i16 Genre.litterature_art = 12
genre_into_i16 Genre.litterature_sport = 13
genre_into_i16 Genre.litterature_litterature = 14
genre_into_i16 Genre.litterature_history = 15
genre_into_i16 Genre.litterature_geography = 16
genre_into_i16 Genre.litterature_other = 17
genre_into_i16 Genre.audio_unknown = 100
genre_into_i16 Genre.audio_jazz = 101
genre_into_i16 Genre.audio_blues = 102
genre_into_i16 Genre.audio_rock = 103
genre_into_i16 Genre.audio_world = 104
genre_into_i16 Genre.audio_classical = 105
genre_into_i16 Genre.video_unknown = 200
genre_into_i16 Genre.video_fiction = 201
genre_into_i16 Genre.video_history = 202
genre_into_i16 Genre.video_art = 203
genre_into_i16 Genre.video_documentary = 204
genre_into_i16 Genre.video_musical = 205

genre_codes : List (ℕ × Genre)
genre_codes =
    (1, Genre.litterature_general)
    ∷ (2, Genre.litterature_fiction)
    ∷ (3, Genre.litterature_comic)
    ∷ (4, Genre.litterature_theatre)
    ∷ (5, Genre.litterature_poem)
    ∷ (6, Genre.litterature_philosophy)
    ∷ (7, Genre.litterature_religion)
    ∷ (8, Genre.litterature_social_sciences)
    ∷ (9, Genre.litterature_languages)
    ∷ (10, Genre.litterature_sciences)
    ∷ (11, Genre.litterature_technical)
    ∷ (12, Genre.litterature_art)
    ∷ (13, Genre.litterature_sport)
    ∷ (14, Genre.litterature_litterature)
    ∷ (15, Genre.litterature_history)
    ∷ (16, Genre.litterature_geography)
    ∷ (17, Genre.litterature_other)
    ∷ (100, Genre.audio_unknown)
    ∷ (101, Genre.audio_jazz)
    ∷ (102, Genre.audio_blues)
    ∷ (103, Genre.audio_rock)
    ∷ (104, Genre.audio_world)
    ∷ (105, Genre.audio_classical)
    ∷ (200, Genre.video_unknown)
    ∷ (201, Genre.video_fiction)
    ∷ (202, Genre.video_history)
    ∷ (203, Genre.video_art)
    ∷ (204, Genre.video_documentary)
    ∷ (205, Genre.video_musical)
    ∷ []

pub genre_from_i16 : ℤ → Genre
unfolding genre_codes
genre_from_i16 = decode genre_codes Genre.unknown

pub data Occupation : Type 0 where
  unknown farm crafts frameworks intermediate operative workmen reprocessed : Occupation
  other : Occupation

pub occupation_into_i16 : Occupation → ℕ
occupation_into_i16 Occupation.unknown = 0
occupation_into_i16 Occupation.farm = 1
occupation_into_i16 Occupation.crafts = 2
occupation_into_i16 Occupation.frameworks = 3
occupation_into_i16 Occupation.intermediate = 4
occupation_into_i16 Occupation.operative = 5
occupation_into_i16 Occupation.workmen = 6
occupation_into_i16 Occupation.reprocessed = 7
occupation_into_i16 Occupation.other = 8

occupation_codes : List (ℕ × Occupation)
occupation_codes =
    (1, Occupation.farm)
    ∷ (2, Occupation.crafts)
    ∷ (3, Occupation.frameworks)
    ∷ (4, Occupation.intermediate)
    ∷ (5, Occupation.operative)
    ∷ (6, Occupation.workmen)
    ∷ (7, Occupation.reprocessed)
    ∷ (8, Occupation.other)
    ∷ []

pub occupation_from_i16 : ℤ → Occupation
unfolding occupation_codes
occupation_from_i16 = decode occupation_codes Occupation.unknown

pub data StaffType : Type 0 where
  employee volunteer : StaffType

pub staff_type_into_i16 : StaffType → ℕ
staff_type_into_i16 StaffType.employee = 0
staff_type_into_i16 StaffType.volunteer = 1

staff_type_codes : List (ℕ × StaffType)
staff_type_codes = (0, StaffType.employee) ∷ (1, StaffType.volunteer) ∷ []

pub staff_type_from_i16 : ℤ → StaffType
unfolding staff_type_codes
staff_type_from_i16 = decode staff_type_codes StaffType.employee

pub data EquipmentType : Type 0 where
  computer tablet e_reader other : EquipmentType

pub equipment_type_into_i16 : EquipmentType → ℕ
equipment_type_into_i16 EquipmentType.computer = 0
equipment_type_into_i16 EquipmentType.tablet = 1
equipment_type_into_i16 EquipmentType.e_reader = 2
equipment_type_into_i16 EquipmentType.other = 3

equipment_type_codes : List (ℕ × EquipmentType)
equipment_type_codes =
    (0, EquipmentType.computer)
    ∷ (1, EquipmentType.tablet)
    ∷ (2, EquipmentType.e_reader)
    ∷ (3, EquipmentType.other)
    ∷ []

pub equipment_type_from_i16 : ℤ → EquipmentType
unfolding equipment_type_codes
equipment_type_from_i16 = decode equipment_type_codes EquipmentType.other

pub data EquipmentStatus : Type 0 where
  active maintenance retired : EquipmentStatus

pub equipment_status_into_i16 : EquipmentStatus → ℕ
equipment_status_into_i16 EquipmentStatus.active = 0
equipment_status_into_i16 EquipmentStatus.maintenance = 1
equipment_status_into_i16 EquipmentStatus.retired = 2

equipment_status_codes : List (ℕ × EquipmentStatus)
equipment_status_codes =
    (0, EquipmentStatus.active)
    ∷ (1, EquipmentStatus.maintenance)
    ∷ (2, EquipmentStatus.retired)
    ∷ []

pub equipment_status_from_i16 : ℤ → EquipmentStatus
unfolding equipment_status_codes
equipment_status_from_i16 = decode equipment_status_codes EquipmentStatus.active

pub data EventType : Type 0 where
  animation school_visit exhibition conference workshop show other : EventType

pub event_type_into_i16 : EventType → ℕ
event_type_into_i16 EventType.animation = 0
event_type_into_i16 EventType.school_visit = 1
event_type_into_i16 EventType.exhibition = 2
event_type_into_i16 EventType.conference = 3
event_type_into_i16 EventType.workshop = 4
event_type_into_i16 EventType.show = 5
event_type_into_i16 EventType.other = 6

event_type_codes : List (ℕ × EventType)
event_type_codes =
    (0, EventType.animation)
    ∷ (1, EventType.school_visit)
    ∷ (2, EventType.exhibition)
    ∷ (3, EventType.conference)
    ∷ (4, EventType.workshop)
    ∷ (5, EventType.show)
    ∷ (6, EventType.other)
    ∷ []

pub event_type_from_i16 : ℤ → EventType
unfolding event_type_codes
event_type_from_i16 = decode event_type_codes EventType.other
