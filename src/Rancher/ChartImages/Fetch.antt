-- ===== src/Rancher/ChartImages/Fetch.antt =====
-- pkg/rancher/chartimages/chartimages.go: `FetchImages` of a chart.
use image_tools.Prelude.{
  Bool, true, false, not, Option, none, some, List, [], ◌∷◌, ◌++◌, eqb, if◌then◌else◌, join_path,
  Result, ok, err, ◌>>=◌, ◌>>◌, Text, codes, is_empty, trim_suffix,
}
use image_tools.Rancher.ChartImages.{OsType, pick_images_from_values_map}
use image_tools.Rancher.ChartImages.Versions.{
  ConstraintPackage, ChartError, no_path, index_failed, clone_failed, ChartVersion, Questions,
  ChartType, first_url, or_fail, admitted_of_index,
}
use image_tools.Rancher.Values.{Value, Fields}
use image_tools.Utils.ImageSet.{ImageSet}

pub record Chart : Type 0 where
  pub rancher_version : Text
  pub os : OsType
  pub type : ChartType
  pub path : Text
  pub url : Text
  pub clone_base_dir : Text
  pub branch : Text
  pub image_set : ImageSet

-- The index of a directory, the maps in the values files of a chart (`none` for an error, of which
-- the program warns), its questions, and the printing of nested values.
pub record ChartFiles : Type 0 where
  pub build_or_get_index : Text → Option (List (List ChartVersion))
  pub decode_values : Text → Option (List Fields)
  pub read_questions : Text → Questions
  pub print_nested : Value → Text

pub data Cloned : Type 0 where
  cloned already_exists not_cloned : Cloned

-- What the program uses of net/url and go-git: the path of a URL; the clone of a branch of a URL
-- into a directory; whether a repository can be opened; the names of its remotes; whether it has
-- a worktree; and whether the checkout of a branch of a remote ends well, or with an error that
-- the program passes over.
pub record GitPackage : Type 0 where
  pub url_path : Text → Option Text
  pub plain_clone : Text → Text → Text → Cloned
  pub plain_open : Text → Bool
  pub remotes : Text → Option (List Text)
  pub worktree : Text → Bool
  pub checkout : Text → Text → Text → Bool

-- `strings.TrimLeft(path, "/")`
unfoldable pub trim_slashes : Text → Text
trim_slashes [] = []
trim_slashes (c ∷ s) = let rest = trim_slashes s in if eqb c b'/' then rest else c ∷ s

-- "[path;name:version]"
unfoldable pub chart_source : Text → ChartVersion → Text
chart_source path v = b'[' ∷ (path ++ b';' ∷ (v.name ++ b':' ∷ (v.version ++ b']' ∷ [])))

abbrev pub values_or_none : Option (List Fields) → List Fields
values_or_none none = []
values_or_none (some l) = l

module _ {C V : Type 0} (semver : ConstraintPackage C V) (files : ChartFiles) where
  unfoldable pub pick_all : OsType → Text → List Fields → ImageSet → ImageSet
  unfolding pick_images_from_values_map
  pick_all os source [] set = set
  pick_all os source (values ∷ rest) set =
      pick_all os source rest (pick_images_from_values_map files.print_nested os source values set)

  -- The values of the versions that were admitted.
  unfoldable pub pick_versions :
      OsType → Text → List ChartVersion → ImageSet → Result ChartError ImageSet
  unfolding pick_all chart_source join_path
  pick_versions os path [] set = ok set
  pick_versions os path (v ∷ versions) set = do
    url ← first_url v.urls
    pick_versions os path versions (
        pick_all os (chart_source path v)
          (values_or_none (files.decode_values (join_path path url))) set)

  unfoldable pub fetch_from_path : Chart → Result ChartError Chart
  unfolding admitted_of_index pick_versions
  fetch_from_path c = do
    entries ← or_fail index_failed (files.build_or_get_index c.path)
    versions ← admitted_of_index semver files.read_questions c.type c.rancher_version c.path entries
    set ← pick_versions c.os c.path versions c.image_set
    ok (record c { image_set = set })

  module _ (git : GitPackage) (cache_directory : Text) where
    -- The directory into which a repository is cloned.
    unfoldable pub clone_directory : Chart → Text → Text
    unfolding join_path trim_slashes
    clone_directory c path =
        join_path (join_path cache_directory c.clone_base_dir) (trim_slashes path)

    abbrev pub require : Bool → Result ChartError (Unit {0})
    require true = ok tt
    require false = err clone_failed

    -- The clone is used, and so is a repository that is there and can be opened.
    abbrev pub opened : Cloned → Text → Bool
    opened cloned directory = true
    opened already_exists directory = git.plain_open directory
    opened not_cloned directory = false

    abbrev pub first_remote : Option (List Text) → Result ChartError Text
    first_remote (some (remote ∷ remotes)) = ok remote
    first_remote r = err clone_failed

    unfoldable pub fetch_from_url : Chart → Result ChartError Chart
    unfolding fetch_from_path clone_directory trim_suffix
    fetch_from_url c = do
      path ← or_fail clone_failed (git.url_path (trim_suffix c.url (codes ".git")))
      let directory = clone_directory c path
      require (opened (git.plain_clone directory c.url c.branch) directory)
      remote ← first_remote (git.remotes directory)
      require (git.worktree directory)
      require (git.checkout directory remote c.branch)
      fetch_from_path (record c { path = directory })

    unfoldable pub fetch_images : Chart → Result ChartError Chart
    unfolding fetch_from_path fetch_from_url
    fetch_images c =
        if not (is_empty c.path)
        then fetch_from_path c
        else if not (is_empty c.url)
        then fetch_from_url c
        else err no_path
