-- ===== src/Artifacts/Fake.antt =====
-- app/storage/fake.py: the object store in memory, as a backend.
use Prim.Native.String.{String}
use android_package_service.Base.{
  ℕ, ◌≡◌, refl, sym, ap, ◌∙◌, inl, Bool, Option, none, some, List, is_some,
}
use android_package_service.Catalog.Versions.{dict_get, dict_set}
use android_package_service.Catalog.Versions.Dicts.{dict_get-dict_set}
use android_package_service.Artifacts.{Metadata, Backend}

pub record FakeStorage (F : Type 0) : Type 0 where
  pub objects : List (String × F)
  pub metadata : List (String × Metadata)

abbrev pub size_of : {F : Type 0} → (F → ℕ) → Option F → Option ℕ
size_of size none = none
size_of size (some f) = some (size f)

module _ {F : Type 0} where
  unfoldable pub upload : F → String → FakeStorage F → FakeStorage F
  upload f k s = record s { objects = dict_set k f s.objects }

  unfoldable pub exists : String → FakeStorage F → Bool
  exists k s = is_some (dict_get k s.objects)

  unfoldable pub head : (F → ℕ) → String → FakeStorage F → Option ℕ
  head size k s = size_of size (dict_get k s.objects)

  unfoldable pub get_metadata : String → FakeStorage F → Option Metadata
  get_metadata p s = dict_get p s.metadata

  unfoldable pub put_metadata : String → Metadata → FakeStorage F → FakeStorage F
  put_metadata p m s = record s { metadata = dict_set p m s.metadata }

  pub head-upload :
      (size : F → ℕ) (f : F) (k : String) (s : FakeStorage F)
      → head size k (upload f k s) ≡ some (size f)
  unfolding head upload
  head-upload size f k s = rw (dict_get-dict_set k f s.objects) refl

  pub get_metadata-put_metadata :
      (p : String) (m : Metadata) (s : FakeStorage F) → get_metadata p (put_metadata p m s) ≡ some m
  unfolding get_metadata put_metadata
  get_metadata-put_metadata p m s = dict_get-dict_set p m s.metadata

  pub head-put_metadata :
      (size : F → ℕ) (k p : String) (m : Metadata) (s : FakeStorage F)
      → head size k (put_metadata p m s) ≡ head size k s
  unfolding head put_metadata
  head-put_metadata size k p m s = refl

  -- The store in memory keeps the laws of a backend.
  abbrev pub fake : (size : F → ℕ) → Backend (FakeStorage F) F size
  fake size = record {
    upload = λ f k s. (upload f k s, none);
    head = head size;
    local_file = λ k s. none;
    get_metadata = get_metadata;
    put_metadata = λ p m s. (put_metadata p m s, none);
    head-upload = λ f k s s' e.
        ap (λ (r : FakeStorage F × Option String). head size k r.0) (sym e)
        ∙ head-upload size f k s;
    local_file-upload = λ f k s s' e. inl refl;
    head-put_metadata = λ k p m s s' a e.
        ap (λ (r : FakeStorage F × Option String). head size k r.0) (sym e)
        ∙ head-put_metadata size k p m s;
    local_file-put_metadata = λ k p m s s' a e. refl;
    get_metadata-put_metadata = λ p m s s' e.
        ap (λ (r : FakeStorage F × Option String). get_metadata p r.0) (sym e)
        ∙ get_metadata-put_metadata p m s;
  }
