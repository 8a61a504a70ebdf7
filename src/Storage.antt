-- ===== src/Storage.antt =====
-- src/storage/storage.service.ts, over the provider that is configured. Logging is left out.
pub mod R2
use nadbooks_backend.Prelude.{ℕ, String, List, Option}
use nadbooks_backend.Effects.{Action, Void, pure, throw, catch}

-- `FileType` of src/books/types.
pub data FileType : Type 0 where
  book_file cover_file avatar_file : FileType

-- What the code reads of an `Express.Multer.File`.
pub record Upload : Type 0 where
  pub bytes : List ℕ
  pub mimetype : String
  pub original_name : Option String

-- `IStorageService`: what a provider does. Each of its methods may be rejected.
pub record Provider : Type 0 where
  pub store_file : FileType → Upload → String → Action String
  pub store_stream : FileType → Upload → String → String → Action String
  pub get_signed_url : String → ℕ → Action String
  pub delete_file : String → Action Void

module _ ⦃provider : Provider⦄ where
  unfoldable pub store_file : FileType → Upload → String → Action String
  store_file type file name = catch (provider.store_file type file name) (λ e. throw e)

  unfoldable pub store_stream : FileType → Upload → String → String → Action String
  store_stream type file name content_type =
      catch (provider.store_stream type file name content_type) (λ e. throw e)

  unfoldable pub get_signed_url : String → ℕ → Action String
  get_signed_url key ttl = provider.get_signed_url key ttl

  -- A deletion that fails does not break the request.
  unfoldable pub delete_file : String → Action Void
  delete_file reference = catch (provider.delete_file reference) (λ e. pure tt)
