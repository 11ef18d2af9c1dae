-- ===== src/Domain.antt =====
-- app/domain/models.py and app/domain/errors.py: requests, plans and errors.
use android_package_service.Base.{ℕ, String, Option, List}

pub data ErrorCode : Type 0 where
  not_found network_error auth_error bad_response verify_failed unsupported : ErrorCode

pub record ProviderError : Type 0 where
  pub provider : String
  pub error : ErrorCode
  pub message : String

pub record AndroidPackageRequest : Type 0 where
  pub package_name : String
  pub version_code : Option ℕ
  pub version_name : Option String
  pub preferred_provider : Option String

pub data PackageFileType : Type 0 where
  base_apk split_apk obb_main obb_patch xapk apks apkm : PackageFileType

-- The headers and the metadata are association lists.
pub record PackageFile : Type 0 where
  pub kind : PackageFileType
  pub name : String
  pub source_type : String
  pub url : Option String
  pub source_url : Option String
  pub source_path : Option String
  pub headers : List (String × String)
  pub proxy : Option String
  pub fallback_urls : List String
  pub size : Option ℕ
  pub md5 : Option String
  pub sha1 : Option String
  pub sha256 : Option String
  pub split_name : Option String
  pub split_type : Option String
  pub metadata : List (String × String)

pub record DownloadPlan : Type 0 where
  pub package_name : String
  pub app_name : String
  pub version_name : Option String
  pub version_code : Option ℕ
  pub provider : String
  pub files : List PackageFile
