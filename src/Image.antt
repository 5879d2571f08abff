-- ===== src/Image.antt =====
-- cluster/image.go: names of images, and the lookup by ID, tag or digest.
pub mod Filtering
use classicswarm.Prelude.{
  Bool, false, not, ◌&&◌, ◌||◌, List, [], ◌∷◌, Option, none, some, any, length, ltb, if◌then◌else◌,
}
use classicswarm.Text.{Str, codes, str_eq, has_prefix, contains, cut, last_cut, split}

pub record Image : Type 0 where
  pub id : Str
  pub repo_tags : List Str
  pub repo_digests : List Str

-- The part behind a colon is a tag where it holds no slash.
unfoldable pub colon_tag : Str → Option (Str × Str) → Str × Str
unfolding contains
colon_tag repos none = (repos, [])
colon_tag repos (some (before, tag)) =
    if not (contains tag (codes "/")) then (before, tag) else (repos, [])

-- `parts` is strings.Split(repos, "@"): two parts or more where there is an `@`.
unfoldable pub digest_or_tag : Str → List Str → Str × Str
unfolding colon_tag last_cut
digest_or_tag repos (name ∷ digest ∷ more) = (name, digest)
digest_or_tag repos parts = colon_tag repos (last_cut b':' repos)

unfoldable pub parse_repository_tag : Str → Str × Str
unfolding digest_or_tag split
parse_repository_tag repos = digest_or_tag repos (split b'@' repos)

-- One round of the loops over tags and digests: `name` is an entry of the image.
unfoldable pub match_reference : Bool → Str → Str → Str → Bool
unfolding parse_repository_tag str_eq
match_reference match_tag repo tag name =
    let (image_repo, image_tag) = parse_repository_tag name in
    (not match_tag && str_eq image_repo repo)
    || (str_eq image_repo repo && (str_eq image_tag tag || str_eq tag []))

-- Equal to the query, or beginning with it if it has more than two bytes.
unfoldable pub match_id : Str → Str → Bool
unfolding str_eq has_prefix
match_id id query = str_eq id query || (ltb 2 (length query) && has_prefix id query)

unfoldable pub match_short_id : Str → Option (Str × Str) → Bool
unfolding match_id
match_short_id query none = false
match_short_id query (some (algorithm, digest)) = match_id digest query

unfoldable pub match_image : Image → Str → Bool → Bool
unfolding match_short_id match_reference cut any
match_image image query match_tag =
    let (repo, tag) = parse_repository_tag query in
    match_id image.id query
    || (match_short_id query (cut image.id (codes ":"))
        || (any (match_reference match_tag repo tag) image.repo_tags
            || any (match_reference match_tag repo tag) image.repo_digests))
