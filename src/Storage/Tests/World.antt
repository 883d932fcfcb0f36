-- ===== src/Storage/Tests/World.antt =====
-- A platform, a file system and a store of objects that the theorems are applied to.
use squirreldb.Base.{
  ℕ, pos, Text, lit, Bytes, show_i64, Bool, true, false, Option, none, some, List, [], ◌∷◌, ◌≡◌,
  refl, arith,
}
use squirreldb.Base.HashMap
use squirreldb.Base.Number.Digits.{show_i64-All}
use squirreldb.Base.Results.{Result, ok, err}
use squirreldb.Storage.Externals.{Platform, IsPlainPlatform, IsPlainChar}
use squirreldb.Storage.Files.{Files, FilesLaws, Digests}

-- Times and identifiers are numbers.
abbrev pub numbered : Platform
numbered = record {
  DateTime = ℕ;
  to_rfc3339 = λ n. show_i64 (pos n);
  to_rfc2822 = λ n. show_i64 (pos n);
  Uuid = ℕ;
  uuid_to_string = λ n. show_i64 (pos n);
  parse_str = λ t. some 7;
  Number = ℕ;
  decode = λ t. some t;
  is_header_name = λ t. true;
  is_header_value = λ t. true;
}

pub numbered-IsPlain : IsPlainPlatform numbered
numbered-IsPlain = record {
  times = λ n. show_i64-All IsPlainChar (λ d h. ground arith) (refl, refl, refl) (pos n);
  identifiers = λ n. show_i64-All IsPlainChar (λ d h. ground arith) (refl, refl, refl) (pos n);
}

abbrev pub Disk : Type 0
Disk = List (Text × Bytes)

abbrev pub file : Option Bytes → Result Text Bytes
file none = err (lit "not found")
file (some d) = ok d

abbrev pub is_there : Option Bytes → Bool
is_there none = false
is_there (some d) = true

abbrev pub disk : Files Disk
disk = record {
  exists = λ p w. is_there (HashMap.get p w);
  create_dir_all = λ p w. (ok tt, w);
  write = λ p d w. (ok tt, HashMap.insert p d w);
  read = λ p w. (file (HashMap.get p w), w);
  remove_file = λ p w. (ok tt, HashMap.remove p w);
  remove_dir_all = λ p w. (ok tt, w);
}

pub disk_laws : FilesLaws disk
disk_laws = record {
  read-write = λ p d w w' h.
      let same : HashMap.insert p d w ≡ w' = cc in rw (← same) (rw (HashMap.get-insert_self) refl);
  exists-write = λ p d w w' h.
      let same : HashMap.insert p d w ≡ w' = cc in rw (← same) (rw (HashMap.get-insert_self) refl);
  read-create_dir_all = λ p q d w w' h k. let same : w ≡ w' = cc in rw (← same) k;
  exists-create_dir_all = λ p q w w' h k. let same : w ≡ w' = cc in rw (← same) k;
}

abbrev pub digests : Digests
digests = record {
  sha256 = λ t. lit "abcdef";
  md5 = λ d. lit "00";
  decode_hex = λ t. some (0 ∷ []);
  unexpected_eof = lit "early eof";
}
