-- ===== src/Plugins/Disk.antt =====
-- What plugins_horizon.cpp uses of the file system. The C library and the card's file system are not
-- part of the repository, so they are a parameter.
use flutter_libnx.Prelude.{ℕ, ◌≡◌, ◌≢◌, Bool, true, false, Option, none, some, List, length, ◌⊎◌}

-- mkdir returned 0, failed with EEXIST, or failed otherwise.
pub data Mkdir : Type 0 where
  created exists failed : Mkdir

pub record Disk : Type 1 where
  pub World : Type 0
  pub mkdir : List ℕ → World → Mkdir × World
  -- fopen(path, "rb"), fread until it returns 0, fclose; `none` if the file cannot be opened.
  pub read_file : List ℕ → World → Option (List ℕ)
  -- fopen(path, "wb"), and whether it opened the file.
  pub create : List ℕ → World → Bool × World
  -- fwrite(bytes, 1, size, f), and how many bytes it took.
  pub write : List ℕ → List ℕ → World → ℕ × World
  -- fclose of the written file, and whether what was buffered reached the card.
  pub close : List ℕ → World → Bool × World
  pub remove : List ℕ → World → World
  -- rename, and whether it returned 0.
  pub rename : List ℕ → List ℕ → World → Bool × World

-- What ISO C and POSIX say of these calls.
pub record IsLawful (D : Disk) : Type 0 where
  pub mkdir_keeps : (d p : List ℕ) (w : D.World) → D.read_file p (D.mkdir d w).1 ≡ D.read_file p w
  pub create_keeps :
      (q p : List ℕ) (w : D.World) → p ≢ q → D.read_file p (D.create q w).1 ≡ D.read_file p w
  pub create_failed :
      (q p : List ℕ) (w : D.World)
      → (D.create q w).0 ≡ false
      → D.read_file p (D.create q w).1 ≡ D.read_file p w
  pub write_keeps :
      (q p bytes : List ℕ) (w : D.World)
      → p ≢ q
      → D.read_file p (D.write q bytes w).1 ≡ D.read_file p w
  pub close_keeps :
      (q p : List ℕ) (w : D.World) → p ≢ q → D.read_file p (D.close q w).1 ≡ D.read_file p w
  -- A new file, written in full and closed with success, holds what was written.
  pub written :
      (p bytes : List ℕ) (w : D.World)
      → (D.create p w).0 ≡ true
      → (D.write p bytes (D.create p w).1).0 ≡ length bytes
      → (D.close p (D.write p bytes (D.create p w).1).1).0 ≡ true
      → D.read_file p (D.close p (D.write p bytes (D.create p w).1).1).1 ≡ some bytes
  pub remove_keeps :
      (q p : List ℕ) (w : D.World) → p ≢ q → D.read_file p (D.remove q w) ≡ D.read_file p w
  pub removed :
      (p : List ℕ) (w : D.World)
      → (D.read_file p (D.remove p w) ≡ none) ⊎ (D.read_file p (D.remove p w) ≡ D.read_file p w)
  pub renamed :
      (p q : List ℕ) (w : D.World)
      → (D.rename p q w).0 ≡ true
      → D.read_file q (D.rename p q w).1 ≡ D.read_file p w
  pub rename_failed :
      (p q r : List ℕ) (w : D.World)
      → (D.rename p q w).0 ≡ false
      → D.read_file r (D.rename p q w).1 ≡ D.read_file r w
