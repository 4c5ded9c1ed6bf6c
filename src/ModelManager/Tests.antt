-- ===== src/ModelManager/Tests.antt =====
-- crates/model-manager/src/lib.rs: runs of the model on small inputs.
use free_whisper.Prelude.{
  ℕ, ◌+◌, ◌≡◌, ◌≢◌, refl, ap, arith, true, false, List, [], ◌∷◌, Option, none, some, map, ok, err,
  Text, codes, text_eq, byte_len, All,
}
use free_whisper.Prelude.Str.{trim, to_ascii_lowercase, ascii_lower}
use free_whisper.Domain.Language.{parse_model_id}
use free_whisper.ModelManager.Manifest.{
  balanced, cpu, stable, ModelManifestEntry, ModelManifest, Crates, verify_for_scope, find_model,
  model_id,
}
use free_whisper.ModelManager.Manifest.Trust.{verify_for_scope-IsTrusted, IsTrusted}
use free_whisper.ModelManager.Paths.{model_directory}
use free_whisper.ModelManager.Paths.Safe.{model_directory-IsPlain, IsPlain, slashed}
use free_whisper.ModelManager.Disk.{empty, Disk}
use free_whisper.ModelManager.Disk.Post.{Post}
use free_whisper.ModelManager.Install.{Answer, chunk, response, install, delete}
use free_whisper.ModelManager.Install.Verified.{IsFine, IsInstalled}
use free_whisper.ModelManager.Install.Safety.{install-IsInstalled}
use free_whisper.ModelManager.Install.Resumed.{joined, installed_disk}
use free_whisper.ModelManager.Install.Again.{
  fresh, breaks_after, install_again_resumes, install_again_mismatches,
}
use free_whisper.ModelManager.Activation.{installed}
use free_whisper.ModelManager.Error.{hash_mismatch, unknown_model, download}

abbrev tiny : ModelManifestEntry
tiny = record {
  id = codes "whisper/tiny";
  display_name = codes "Tiny";
  preset = balanced;
  revision = codes "1";
  download_url = codes "https://models.example/tiny";
  file_name = codes "tiny.bin";
  size_bytes = 3;
  sha256 = codes "abc";
  license = codes "MIT";
  license_url = codes "https://models.example/license";
  source_url = codes "https://models.example/source";
  backend = cpu;
  quantization = codes "q5";
  estimated_ram_bytes = 10;
}

abbrev listing : ModelManifest
listing = record {
  schema_version = 1;
  manifest_version = codes "1";
  trust_scope = stable;
  models = tiny ∷ [];
}

abbrev thirty_two : List ℕ
thirty_two =
    1 ∷ 2 ∷ 3 ∷ 4 ∷ 5 ∷ 6 ∷ 7 ∷ 8 ∷ 9 ∷ 10 ∷ 11 ∷ 12 ∷ 13 ∷ 14 ∷ 15 ∷ 16 ∷ 17 ∷ 18 ∷ 19 ∷ 20 ∷ 21
    ∷ 22 ∷ 23 ∷ 24 ∷ 25 ∷ 26 ∷ 27 ∷ 28 ∷ 29 ∷ 30 ∷ 31 ∷ 32 ∷ []

-- Crates that know one manifest and one key.
abbrev toy : Crates
toy = record {
  parse_url =
      λ t. some (record { scheme = codes "https"; has_query = false; has_fragment = false });
  path_file_name = λ t. some t;
  decode_hex = λ t. some thirty_two;
  decode_base64 = λ t. some t;
  parse_json = λ bytes. some listing;
  canonical_json = λ m. some (7 ∷ []);
  parse_public_key = λ bytes. some bytes;
  parse_signature = λ bytes. some bytes;
  is_signed = λ key message signature. true;
}

-- A digest that names each byte by a letter.
abbrev letters : List ℕ → Text
letters bytes = map (λ b. b + b'a') bytes

listing_accepted : verify_for_scope toy thirty_two [] (codes "sig") stable ≡ ok listing
unfolding verify_for_scope trim parse_model_id byte_len text_eq
listing_accepted = refl

tiny_found : find_model listing (codes "whisper/tiny") ≡ ok tiny
unfolding find_model text_eq
tiny_found = refl

tiny_named : model_id tiny ≡ ok (codes "whisper/tiny")
unfolding model_id parse_model_id trim byte_len
tiny_named = refl

tiny_placed : model_directory (codes "whisper/tiny") ≡ ok (codes "whisper" ∷ codes "tiny" ∷ [])
unfolding model_directory
tiny_placed = refl

verify_for_scope-IsTrusted_example : IsTrusted toy thirty_two [] (codes "sig") stable listing
verify_for_scope-IsTrusted_example =
    verify_for_scope-IsTrusted toy thirty_two [] (codes "sig") stable listing listing_accepted

model_directory-IsPlain_example :
    All IsPlain (codes "whisper" ∷ codes "tiny" ∷ [])
    × (slashed (codes "whisper" ∷ codes "tiny" ∷ []) ≡ b'/' ∷ codes "whisper/tiny")
model_directory-IsPlain_example =
    model_directory-IsPlain (codes "whisper/tiny") (codes "whisper" ∷ codes "tiny" ∷ []) tiny_placed

abbrev whole : List (List ℕ)
whole = (0 ∷ 1 ∷ []) ∷ (2 ∷ []) ∷ []

-- No file yet, one operation fails, and the answer breaks off.
abbrev contested : Disk
contested = record {
  partial = none;
  resume = none;
  destination = none;
  staging = none;
  legacy = none;
  intruder = some empty;
  late_intruder = none;
  faults = false ∷ false ∷ true ∷ [];
}

abbrev serve : ℕ → Option Text → Answer
serve range if_range = response 200 none (map chunk whole)

install-IsInstalled_example :
    Post
      (IsFine letters tiny contested)
      (λ d m. IsInstalled letters tiny d)
      (install letters listing (codes "whisper/tiny") false serve contested)
install-IsInstalled_example =
    install-IsInstalled letters toy thirty_two [] (codes "sig") stable listing listing_accepted
      (codes "whisper/tiny") tiny tiny_found false serve contested

abbrev spoiled : List ℕ
spoiled = 5 ∷ 5 ∷ 5 ∷ []

spoiled_differs : letters spoiled ≢ to_ascii_lowercase (codes "abc")
unfolding to_ascii_lowercase ascii_lower
spoiled_differs e = ground (arith, ap {B = ℕ} (λ t. elim t [ [] ↦ 0 | c ∷ u ↦ c ]) e)

-- The server gives it whole, with bytes of another digest.
abbrev serve_spoiled : ℕ → Option Text → Answer
serve_spoiled range if_range = response 200 none (map chunk (spoiled ∷ []))

install_again_mismatches_example :
    ((install letters listing (codes "whisper/tiny") false serve_spoiled fresh).1
      ≡ err (hash_mismatch (codes "abc") (letters spoiled)))
    × ((install letters listing (codes "whisper/tiny") false serve_spoiled fresh).0.partial
        ≡ some spoiled)
    × (install letters listing
          (codes "whisper/tiny")
          false
          serve
          (install letters listing (codes "whisper/tiny") false serve_spoiled fresh).0
        ≡ (
          (install letters listing (codes "whisper/tiny") false serve_spoiled fresh).0,
          err (hash_mismatch (codes "abc") (letters spoiled)),
        ))
    × (delete
          (codes "whisper/tiny")
          (install letters listing (codes "whisper/tiny") false serve_spoiled fresh).0
        ≡ (
          (install letters listing (codes "whisper/tiny") false serve_spoiled fresh).0,
          err (unknown_model (codes "whisper/tiny")),
        ))
unfolding joined
install_again_mismatches_example =
    install_again_mismatches letters tiny none listing (codes "whisper/tiny") (codes "whisper/tiny")
      (codes "whisper" ∷ codes "tiny" ∷ []) serve_spoiled serve (spoiled ∷ []) tiny_found tiny_named
      tiny_placed refl (omega arith) (omega arith) refl spoiled_differs

abbrev the_rest : List (List ℕ)
the_rest = (1 ∷ []) ∷ (2 ∷ []) ∷ []

abbrev serve_rest : ℕ → Option Text → Answer
serve_rest range if_range = response 206 none (map chunk the_rest)

abc_digest : letters (0 ∷ 1 ∷ 2 ∷ []) ≡ to_ascii_lowercase (codes "abc")
unfolding to_ascii_lowercase
abc_digest = refl

-- The first answer breaks after one byte.
abbrev serve_one : ℕ → Option Text → Answer
serve_one range if_range = response 200 none (breaks_after ((0 ∷ []) ∷ []))

install_again_resumes_example :
    ((install letters listing (codes "whisper/tiny") false serve_one fresh).1 ≡ err download)
    × (install letters listing
          (codes "whisper/tiny")
          false
          serve_rest
          (install letters listing (codes "whisper/tiny") false serve_one fresh).0
        ≡ (installed_disk (0 ∷ 1 ∷ 2 ∷ []), ok (installed tiny)))
unfolding joined
install_again_resumes_example =
    install_again_resumes letters tiny none listing (codes "whisper/tiny") (codes "whisper/tiny")
      (codes "whisper" ∷ codes "tiny" ∷ []) serve_one serve_rest ((0 ∷ []) ∷ []) the_rest none
      tiny_found tiny_named tiny_placed refl refl (omega arith) (omega arith) (omega arith) refl
      abc_digest
