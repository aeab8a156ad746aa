-- ===== src/Mcp/Guard.antt =====
-- What the dry run of a client may see (internal/mcp/bridge.go: `DryRun`, `validatePaths`).
use mathlib.Core.Path.{subst}
use tgup.Prelude.{
  ℕ, zero, suc, ◌≤◌, ◌≡◌, refl, ap, Bool, true, false, Option, none, some, List, [], ◌∷◌, map,
  length, take, length-take, length-map, All, arith,
}
use tgup.Prelude.Text.{Text}
use tgup.Config.Model.{Config, Overlay}
use tgup.Config.Env.{Environment}
use tgup.Config.Resolve.{resolve}
use tgup.Scan.Model.{Item}
use tgup.Scan.Discover.{FileSystem, Discovered, found, scan_failed, endless, discover}
use tgup.Plan.Model.{Album, Plan}
use tgup.Plan.Sort.{Sorter}
use tgup.Plan.Build.{build}
use tgup.Mcp.Roots.{PathLaws, InRoots, validate_paths-InRoots}
use tgup.Mcp.Asked.{IsAsked, resolve-IsAsked}
use tgup.Mcp.Bridge.{
  RunSpec, DryRunOutput, spec_to_overlay, validate_paths, preview_items, preview_album, previews,
  previewed, output, scan_options, plan_options, plan_found, scan_checked, with_config, dry_run,
}

preview_items-le : (show : Bool) (items : List Item) → length (preview_items show items) ≤ 10
unfolding preview_items
preview_items-le true items = omega (arith, length-take 10 (map (λ i. i.path) items))
preview_items-le false items = omega arith

previews-le :
    (show : Bool) (albums : List Album)
    → All (λ a. length a.items ≤ 10) (map (preview_album show) albums)
unfolding preview_album
previews-le show [] = tt
previews-le show (a ∷ albums) = (preview_items-le show a.items, previews-le show albums)

-- What a client is shown: of settings that are as it asks, with sources that lead to places below
-- those of the roots, the number of the items that discovery finds, the number of the albums that
-- planning makes of them, and of the first 20 of these the label, the number of the items, and at most
-- 10 of their paths.
pub record IsGuarded (fs : FileSystem) (sorter : Sorter) (fuel : ℕ) (roots : List Text)
    (files : Option (List Overlay)) (env : Environment) (spec : RunSpec) (out : DryRunOutput)
    : Type 0 where
  pub config : Config
  pub resolves : resolve files env (spec_to_overlay spec) ≡ some config
  pub asked : IsAsked spec config
  pub from_config : out.sources ≡ config.scan.src
  pub in_roots : All (InRoots fs roots) out.sources
  pub items : List Item
  pub finds : discover fs sorter fuel (scan_options config) ≡ found items
  pub counts : out.items ≡ length items
  pub plan : Plan
  pub plans : build sorter items (plan_options config) ≡ some plan
  pub albums : out.albums ≡ length plan.albums
  pub few_albums : length out.preview ≤ 20
  pub labels : map (λ a. a.label) out.preview ≡ take 20 (map (λ a. a.label) plan.albums)
  pub sizes : map (λ a. a.count) out.preview ≡ take 20 (map (λ a. length a.items) plan.albums)
  pub few_items : All (λ a. length a.items ≤ 10) out.preview

first_labels :
    (show : Bool) (n : ℕ) (albums : List Album)
    → map (λ a. a.label) (map (preview_album show) (take n albums))
      ≡ take n (map (λ a. a.label) albums)
unfolding preview_album
first_labels show zero albums = refl
first_labels show (suc n) [] = refl
first_labels show (suc n) (a ∷ albums) = ap (λ l. a.label ∷ l) (first_labels show n albums)

first_sizes :
    (show : Bool) (n : ℕ) (albums : List Album)
    → map (λ a. a.count) (map (preview_album show) (take n albums))
      ≡ take n (map (λ a. length a.items) albums)
unfolding preview_album
first_sizes show zero albums = refl
first_sizes show (suc n) [] = refl
first_sizes show (suc n) (a ∷ albums) = ap (λ l. length a.items ∷ l) (first_sizes show n albums)

previewed_inj : {a b : DryRunOutput} → previewed a ≡ previewed b → a ≡ b
previewed_inj h = cc

module _ (fs : FileSystem) (sorter : Sorter) (fuel : ℕ) (roots : List Text) (show : Bool)
    (files : Option (List Overlay)) (env : Environment) (spec : RunSpec) (laws : PathLaws fs) where
  output-IsGuarded :
      (cfg : Config) (items : List Item) (p : Option Plan) (out : DryRunOutput)
      → resolve files env (spec_to_overlay spec) ≡ some cfg
      → validate_paths fs roots cfg.scan.src ≡ none
      → discover fs sorter fuel (scan_options cfg) ≡ found items
      → build sorter items (plan_options cfg) ≡ p
      → output show cfg items p ≡ previewed out
      → IsGuarded fs sorter fuel roots files env spec out
  unfolding output previews
  output-IsGuarded cfg items none out r v d b e = absurd (cc)
  output-IsGuarded cfg items (some pl) out r v d b e =
      subst (IsGuarded fs sorter fuel roots files env spec) (previewed_inj e) (record {
        config = cfg;
        resolves = r;
        asked = resolve-IsAsked files env spec cfg r;
        from_config = refl;
        in_roots = validate_paths-InRoots fs laws roots cfg.scan.src v;
        items = items;
        finds = d;
        counts = refl;
        plan = pl;
        plans = b;
        albums = refl;
        few_albums =
            omega (
              arith,
              length-map (preview_album show) (take 20 pl.albums),
              length-take 20 pl.albums,
            );
        labels = first_labels show 20 pl.albums;
        sizes = first_sizes show 20 pl.albums;
        few_items = previews-le show (take 20 pl.albums);
      })

  found-IsGuarded :
      (cfg : Config) (x : Discovered) (out : DryRunOutput)
      → resolve files env (spec_to_overlay spec) ≡ some cfg
      → validate_paths fs roots cfg.scan.src ≡ none
      → discover fs sorter fuel (scan_options cfg) ≡ x
      → plan_found sorter show cfg x ≡ previewed out
      → IsGuarded fs sorter fuel roots files env spec out
  unfolding plan_found
  found-IsGuarded cfg (found items) out r v d e =
      output-IsGuarded cfg items (build sorter items (plan_options cfg)) out r v d refl e
  found-IsGuarded cfg (scan_failed x) out r v d e = absurd (cc)
  found-IsGuarded cfg endless out r v d e = absurd (cc)

  checked-IsGuarded :
      (cfg : Config) (first : Option Text) (out : DryRunOutput)
      → resolve files env (spec_to_overlay spec) ≡ some cfg
      → validate_paths fs roots cfg.scan.src ≡ first
      → scan_checked fs sorter fuel roots show cfg first ≡ previewed out
      → IsGuarded fs sorter fuel roots files env spec out
  unfolding scan_checked
  checked-IsGuarded cfg none out r v e =
      found-IsGuarded cfg (discover fs sorter fuel (scan_options cfg)) out r v refl e
  checked-IsGuarded cfg (some path) out r v e = absurd (cc)

  config-IsGuarded :
      (cfg : Option Config) (out : DryRunOutput)
      → resolve files env (spec_to_overlay spec) ≡ cfg
      → with_config fs sorter fuel roots show cfg ≡ previewed out
      → IsGuarded fs sorter fuel roots files env spec out
  unfolding with_config
  config-IsGuarded none out r e = absurd (cc)
  config-IsGuarded (some cfg) out r e =
      checked-IsGuarded cfg (validate_paths fs roots cfg.scan.src) out r refl e

  -- A dry run that answers a client works with settings in which everything that the client asks for
  -- is as it asks; each of its sources leads to a place below that of an allowed root, names of
  -- directories compared; it counts the items that discovery finds with these settings and the albums
  -- that planning makes of them, and shows of the first 20 albums the label, the number of the items,
  -- and at most 10 paths. (The functions of path/filepath do what they say.)
  pub dry_run-IsGuarded :
      (out : DryRunOutput)
      → dry_run fs sorter fuel roots show files env spec ≡ previewed out
      → IsGuarded fs sorter fuel roots files env spec out
  unfolding dry_run
  dry_run-IsGuarded out e = config-IsGuarded (resolve files env (spec_to_overlay spec)) out refl e
