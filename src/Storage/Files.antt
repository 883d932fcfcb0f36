-- ===== src/Storage/Files.antt =====
-- The file system as crates/sqrld/src/storage/filesystem.rs calls it through tokio, over a world `W`:
-- a parameter, with what the code relies on as laws. Paths are texts.
use squirreldb.Base.{Text, Bytes, Bool, true, ◌≡◌, Option}
use squirreldb.Base.Results.{ok}
use squirreldb.Storage.Services.{Call, Nothing}

pub record Files (W : Type 0) : Type 0 where
  pub exists : Text → W → Bool
  pub create_dir_all : Text → Call W Nothing
  -- `File::create`, `write_all` and `flush`
  pub write : Text → Bytes → Call W Nothing
  pub read : Text → Call W Bytes
  pub remove_file : Text → Call W Nothing
  pub remove_dir_all : Text → Call W Nothing

-- A file is read as it was written; reading changes nothing, and neither does making directories
-- change a file.
pub record FilesLaws {W : Type 0} (fs : Files W) : Type 0 where
  pub read-write :
      (p : Text) (d : Bytes) (w w' : W) → fs.write p d w ≡ (ok tt, w') → fs.read p w' ≡ (ok d, w')
  pub exists-write :
      (p : Text) (d : Bytes) (w w' : W) → fs.write p d w ≡ (ok tt, w') → fs.exists p w' ≡ true
  pub read-create_dir_all :
      (p q : Text) (d : Bytes) (w w' : W)
      → fs.create_dir_all q w ≡ (ok tt, w')
      → fs.read p w ≡ (ok d, w)
      → fs.read p w' ≡ (ok d, w')
  pub exists-create_dir_all :
      (p q : Text) (w w' : W)
      → fs.create_dir_all q w ≡ (ok tt, w')
      → fs.exists p w ≡ true
      → fs.exists p w' ≡ true

-- The digests of the crates sha2 and md5, in hexadecimal digits, `hex::decode`, and the error text of
-- a file that ends too early.
pub record Digests : Type 0 where
  pub sha256 : Text → Text
  pub md5 : Bytes → Text
  pub decode_hex : Text → Option Bytes
  pub unexpected_eof : Text
