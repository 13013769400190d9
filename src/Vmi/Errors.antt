-- ===== src/Vmi/Errors.antt =====
-- src/vmi.rs and src/vmi/error.rs: the result of a translation and the errors, without the texts
-- that they carry.
use aegis_hv.Common.{ℕ, Bool}

-- The names of the levels of the page tables.
pub data Level : Type 0 where
  pml5e pml4e pdpte pde pte : Level

-- `MemoryReadError`: the cases that `read_table_entry` tells apart.
pub data MemoryReadError : Type 0 where
  backend malformed other : MemoryReadError

-- The errors that a walk of the page tables and the cache return.
pub data TranslationError : Type 0 where
  backend_error : Level → TranslationError
  missing_context : TranslationError
  invalid_address : ℕ → TranslationError
  not_present : Level → ℕ → TranslationError
  missing_memory : ℕ → TranslationError
  translation_failed : ℕ → TranslationError
  malformed_page_tables : Level → TranslationError

pub record TranslationResult : Type 0 where
  pub gpa : ℕ
  pub readable : Bool
  pub writable : Bool
  pub executable : Bool
  pub user : Bool
  pub page_size : ℕ
