-- ===== src/Robot/Passes.antt =====
-- server/app/services/qrcode_generator.py and pass_cleanup.py: the images of the passes, and their
-- removal. Times are milliseconds.
use open_yzj.Prelude.{
  Bool, List, Result, String, [], concat, if◌then◌else◌, ltb, not, ok, suffix, text_length, ℕ, ◌&&◌,
  ◌+◌, ◌-◌, ◌==◌, ◌>>=◌, ◌∷◌,
}
use open_yzj.Bytes.{encode}
use open_yzj.Value.{Fields, str}
use open_yzj.Value.Methods.{Codec, get_default, text_of}

-- a file of the directory of passes
pub record File : Type 0 where
  pub name : String
  pub mtime : ℕ

-- `MAX_AGE_SECONDS`
abbrev pub max_age : ℕ
max_age = 3600000

-- `glob("*.png")`
abbrev pub is_png : File → Bool
is_png f = suffix (text_length f.name - 4) f.name == ".png"

abbrev pub is_expired : ℕ → File → Bool
is_expired now f = is_png f && ltb (f.mtime + max_age) now

-- `cleanup_expired_passes` of a directory that exists; `stays` tells the files whose `stat` or
-- `unlink` raises
unfoldable pub cleanup_expired_passes : (File → Bool) → ℕ → List File → List File
cleanup_expired_passes stays now [] = []
cleanup_expired_passes stays now (f ∷ fs) =
    let rest = cleanup_expired_passes stays now fs in
    if is_expired now f && not (stays f) then rest else f ∷ rest

-- `str(data.get(key, ""))`
abbrev pub part : Codec → String → Fields → String
part c key data_dict = text_of c (get_default key (str "") data_dict)

-- the text behind the code
abbrev pub raw_text : Codec → Fields → String
raw_text c d =
    concat (part c "ShopId" d)
      (concat "__" (concat (part c "Id" d) (concat "__" (part c "Info" d))))

-- `generate_qrcode_png`: `b64encode` is that of the library, and `save` draws a text and writes the
-- image under a name
unfoldable pub generate_qrcode_png :
    Codec
    → (List ℕ → String)
    → (String → String → List File → Result (List File))
    → Fields
    → List File
    → Result (String × List File)
generate_qrcode_png c b64encode save d files = do
  saved ← save (b64encode (encode (raw_text c d))) (concat (part c "Id" d) ".png") files
  ok (concat "/static/passes/" (concat (part c "Id" d) ".png"), saved)
