-- ===== src/Enums/Media.antt =====
-- Document types (src/models/biblio.rs `MediaType`): the legacy codes, the names stored in the
-- database, and the reading of either.
use elidune_server.Prelude.{String, ◌≡◌, refl, List, [], ◌∷◌}
use elidune_server.Enums.Decode.{decode_text}

pub data MediaType : Type 0 where
  all unknown printed_text multimedia comics periodic video video_tape : MediaType
  video_dvd audio audio_music audio_music_tape audio_music_cd audio_non_music : MediaType
  audio_non_music_tape audio_non_music_cd cd_rom images : MediaType

pub as_code : MediaType → String
as_code all = ""
as_code unknown = "u"
as_code printed_text = "b"
as_code multimedia = "m"
as_code comics = "bc"
as_code periodic = "p"
as_code video = "v"
as_code video_tape = "vt"
as_code video_dvd = "vd"
as_code audio = "a"
as_code audio_music = "am"
as_code audio_music_tape = "amt"
as_code audio_music_cd = "amc"
as_code audio_non_music = "an"
as_code audio_non_music_tape = "ant"
as_code audio_non_music_cd = "anc"
as_code cd_rom = "c"
as_code images = "i"

pub media_as_db_str : MediaType → String
media_as_db_str all = "all"
media_as_db_str unknown = "unknown"
media_as_db_str printed_text = "printedText"
media_as_db_str multimedia = "multimedia"
media_as_db_str comics = "comics"
media_as_db_str periodic = "periodic"
media_as_db_str video = "video"
media_as_db_str video_tape = "videoTape"
media_as_db_str video_dvd = "videoDvd"
media_as_db_str audio = "audio"
media_as_db_str audio_music = "audioMusic"
media_as_db_str audio_music_tape = "audioMusicTape"
media_as_db_str audio_music_cd = "audioMusicCd"
media_as_db_str audio_non_music = "audioNonMusic"
media_as_db_str audio_non_music_tape = "audioNonMusicTape"
media_as_db_str audio_non_music_cd = "audioNonMusicCd"
media_as_db_str cd_rom = "cdRom"
media_as_db_str images = "images"

media_names : List (String × MediaType)
media_names =
    ("", all)
    ∷ ("u", unknown)
    ∷ ("b", printed_text)
    ∷ ("m", multimedia)
    ∷ ("bc", comics)
    ∷ ("p", periodic)
    ∷ ("v", video)
    ∷ ("vt", video_tape)
    ∷ ("vd", video_dvd)
    ∷ ("a", audio)
    ∷ ("am", audio_music)
    ∷ ("amt", audio_music_tape)
    ∷ ("amc", audio_music_cd)
    ∷ ("an", audio_non_music)
    ∷ ("ant", audio_non_music_tape)
    ∷ ("anc", audio_non_music_cd)
    ∷ ("c", cd_rom)
    ∷ ("i", images)
    ∷ ("all", all)
    ∷ ("unknown", unknown)
    ∷ ("printedText", printed_text)
    ∷ ("multimedia", multimedia)
    ∷ ("comics", comics)
    ∷ ("periodic", periodic)
    ∷ ("video", video)
    ∷ ("videoTape", video_tape)
    ∷ ("videoDvd", video_dvd)
    ∷ ("audio", audio)
    ∷ ("audioMusic", audio_music)
    ∷ ("audioMusicTape", audio_music_tape)
    ∷ ("audioMusicCd", audio_music_cd)
    ∷ ("audioNonMusic", audio_non_music)
    ∷ ("audioNonMusicTape", audio_non_music_tape)
    ∷ ("audioNonMusicCd", audio_non_music_cd)
    ∷ ("cdRom", cd_rom)
    ∷ ("images", images)
    ∷ []

pub media_from_str : String → MediaType
unfolding media_names
media_from_str = decode_text media_names unknown

-- A document type is read back from its database name and from its legacy code.
pub media_round_trip :
    (m : MediaType) → (media_from_str (media_as_db_str m) ≡ m) × (media_from_str (as_code m) ≡ m)
unfolding media_from_str media_as_db_str as_code
media_round_trip all = (refl, refl)
media_round_trip unknown = (refl, refl)
media_round_trip printed_text = (refl, refl)
media_round_trip multimedia = (refl, refl)
media_round_trip comics = (refl, refl)
media_round_trip periodic = (refl, refl)
media_round_trip video = (refl, refl)
media_round_trip video_tape = (refl, refl)
media_round_trip video_dvd = (refl, refl)
media_round_trip audio = (refl, refl)
media_round_trip audio_music = (refl, refl)
media_round_trip audio_music_tape = (refl, refl)
media_round_trip audio_music_cd = (refl, refl)
media_round_trip audio_non_music = (refl, refl)
media_round_trip audio_non_music_tape = (refl, refl)
media_round_trip audio_non_music_cd = (refl, refl)
media_round_trip cd_rom = (refl, refl)
media_round_trip images = (refl, refl)
