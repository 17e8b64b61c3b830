-- ===== src/Base/DynamicLib.antt =====
-- `DynamicLib` (base/dynamic_lib.h, dynamic_lib_unix.cpp). `dlopen` and `dlsym` are a parameter.
pub mod Shared
use mod_server.Prelude.{Bool, Option, none, some, Bytes}
use mod_server.Prelude.Int.{ℤ}

-- A symbol is there or NULL; `errno` is what it is after `dlopen` of a path.
pub record Dl (Handle : Type 0) : Type 0 where
  pub dlopen : Bytes → Option Handle
  pub dlsym : Handle → Bytes → Bool
  pub errno : Bytes → ℤ

pub record DynamicLib (Handle : Type 0) : Type 0 where
  pub m_handle : Handle

module _ {Handle : Type 0} (dl : Dl Handle) where
  -- `GetProc`: whether the result is not NULL.
  abbrev pub get_symbol : DynamicLib Handle → Bytes → Bool
  get_symbol lib name = dl.dlsym lib.m_handle name

  -- What `Load` makes of a handle.
  abbrev pub lib_of : Option Handle → Option (DynamicLib Handle)
  lib_of none = none
  lib_of (some handle) = some (record { m_handle = handle })

  -- `Load`: the library, and what it stores through `err`.
  unfoldable pub load_lib : Bytes → Option (DynamicLib Handle) × ℤ
  load_lib path = (lib_of (dl.dlopen path), dl.errno path)
