-- ===== src/Users/Profile.antt =====
-- The user's own profile in src/users/users.service.ts. `throw NotFoundException` throws a class,
-- which no filter takes for an HTTP error.
use nadbooks_backend.Prelude.{
  String, Bool, ◌==◌, ◌&&◌, not, Option, none, some, List, ◌∷◌, is_some, find_first, find_many,
  update_first, or_else, if◌then◌else◌, map,
}
use nadbooks_backend.Schema.{
  Db, User, Wallet, SocialLink, SocialPlatform, instagram, twitter, facebook, same_platform,
  Decimal, Book,
}
use nadbooks_backend.Effects.{
  World, Env, same_text, Action, Void, main, bad_request, not_found, external, unique_violation,
  pure, gets, or_throw, ask, ◌>>=◌, ◌>>◌, throw_if, modify,
}
use nadbooks_backend.Wallet.{find_user_wallet}
use nadbooks_backend.Mime.{allowed_image_labels, assert_allowed_type}
use nadbooks_backend.Storage.{Provider, Upload, avatar_file, store_file, delete_file}
use nadbooks_backend.Books.{Library, find_book}
use nadbooks_backend.Books.Uploads.{resize_and_optimize}
use nadbooks_backend.Users.Store.{find_user, update_user}

-- The profile: the row, the wallet's balance, and the links.
pub record ProfileView : Type 0 where
  pub user : User
  pub has_password : Bool
  pub balance : Option Decimal
  pub social_links : List SocialLink

abbrev balance_of : Option Wallet → Option Decimal
balance_of none = none
balance_of (some wallet) = some wallet.balance

abbrev pub links_of : String → Db → List SocialLink
links_of user_id d = find_many (λ link. link.user_id == user_id) d.social_links

unfoldable pub get_profile : String → Action ProfileView
unfolding find_user_wallet
get_profile user_id = do
  user ← or_throw (← gets (λ w. find_user user_id w.db)) (external "NotFoundException")
  gets (λ w. record {
    user = user;
    has_password = is_some user.password_hash;
    balance = balance_of (find_user_wallet user_id w.db);
    social_links = links_of user_id w.db;
  })

pub record ProfileEdit : Type 0 where
  pub first_name : Option String
  pub last_name : Option String
  pub username : Option String

abbrev pub with_profile : ProfileEdit → User → User → User
with_profile payload existing user = record user {
  first_name = or_else payload.first_name existing.first_name;
  last_name = or_else payload.last_name existing.last_name;
  username = or_else payload.username existing.username;
}

-- Another user with the name, which is a unique column.
abbrev pub name_taken : ⦃env : Env⦄ → String → String → Db → Bool
name_taken username id d =
    is_some (find_first (λ u. same_text u.username username && not (u.id == id)) d.users)

unfoldable pub update_profile : ⦃env : Env⦄ → String → ProfileEdit → Action User
unfolding update_user
update_profile user_id payload = do
  existing ← or_throw (← gets (λ w. find_user user_id w.db)) (not_found "User not found")
  taken ← gets (λ w. name_taken (or_else payload.username existing.username) user_id w.db)
  throw_if taken unique_violation
  update_user user_id (with_profile payload existing) main

abbrev pub is_link : String → SocialPlatform → SocialLink → Bool
is_link user_id platform link = (link.user_id == user_id) && same_platform link.platform platform

abbrev pub set_links : List SocialLink → World → World
set_links links w = record w { db = record w.db { social_links = links } }

abbrev pub with_url : String → SocialLink → SocialLink
with_url url link = record link { url = url }

unfoldable pub delete_links : String → SocialPlatform → Action Void
delete_links user_id platform =
    modify (λ w. set_links (find_many (λ l. not (is_link user_id platform l)) w.db.social_links) w)

module _ ⦃env : Env⦄ where
  abbrev insert_link : String → SocialPlatform → String → Action Void
  insert_link user_id platform url = ask env.random >>= λ id.
      gets (λ w. not (is_some (find_user user_id w.db))) >>= λ orphan.
      throw_if orphan (external "Foreign key constraint violated")
      >> modify (λ w.
        set_links
          ((record { id = id; user_id = user_id; platform = platform; url = url })
            ∷ w.db.social_links)
          w)

  abbrev replace_link : String → SocialPlatform → String → Action Void
  replace_link user_id platform url =
      modify (λ w.
        set_links (update_first (is_link user_id platform) (with_url url) w.db.social_links) w)

  unfoldable pub upsert_link : String → SocialPlatform → String → Action Void
  upsert_link user_id platform url =
      gets (λ w. is_some (find_first (is_link user_id platform) w.db.social_links)) >>= λ there.
      if there then replace_link user_id platform url else insert_link user_id platform url

  -- One turn of the loop: `undefined` leaves the link, the empty text clears it.
  unfoldable pub update_link : String → SocialPlatform → Option String → Action Void
  unfolding delete_links upsert_link
  update_link user_id platform none = pure tt
  update_link user_id platform (some url) =
      if url == "" then delete_links user_id platform else upsert_link user_id platform url

  unfoldable pub update_socials :
      String → Option String → Option String → Option String → Action (List SocialLink)
  unfolding update_link
  update_socials user_id on_instagram on_twitter on_facebook = do
    update_link user_id instagram on_instagram
    update_link user_id twitter on_twitter
    update_link user_id facebook on_facebook
    gets (λ w. links_of user_id w.db)

abbrev pub with_avatar : String → User → User
with_avatar url user = record user { avatar_url = some url }

abbrev old_avatar : Option User → Option String
old_avatar none = none
old_avatar (some user) = user.avatar_url

module _ ⦃env : Env⦄ ⦃library : Library⦄ ⦃provider : Provider⦄ where
  abbrev remove_old : Option String → Action Void
  remove_old none = pure tt
  remove_old (some url) = if url == "" then pure tt else delete_file url

  -- The processed buffer is never missing, so "Invalid avatar image" is not thrown.
  unfoldable pub update_avatar : String → Option Upload → Action String
  unfolding assert_allowed_type resize_and_optimize store_file delete_file update_user
  update_avatar user_id file = do
    image ← or_throw file (bad_request "Avatar image is required")
    assert_allowed_type image.bytes allowed_image_labels
    processed ← resize_and_optimize image.bytes
    url ←
        store_file avatar_file (record image { bytes = processed; mimetype = "image/jpeg" }) user_id
    old ← gets (λ w. old_avatar (find_user user_id w.db))
    update_user user_id (with_avatar url) main
    remove_old old
    pure url

-- The rows of the books that a user has marked.
unfoldable pub get_book_marked_books : String → Action (List (Option Book))
unfolding find_book
get_book_marked_books user_id = gets (λ w.
    map (λ mark. find_book mark.book_id w.db)
      (find_many (λ mark. mark.user_id == user_id) w.db.book_bookmarks))
