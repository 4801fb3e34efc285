-- ===== src/Cmd/Boot/Kept.antt =====
-- Booting an ISO and browsing the cache add no events.
use webboot.Prelude.{ℕ, ◌≤◌, Bool, true, false, Str, List, [], ◌∷◌, ◌++◌, Option, none, some, map}
use webboot.Menu.Taking.{Kept-same}
use webboot.Bootiso.Image.{OsImage, Config}
use webboot.Bootiso.Parse.{parse_config_from_iso}
use webboot.Bootiso.Custom.{load_custom_configs}
use webboot.Bootiso.Boot.{boot_cached_iso}
use webboot.Cmd.Types.{
  Distro, Entry, iso, dir_option, config, interface, download_option, log_option, network,
  boot_config, mirror,
}
use webboot.Cmd.Utils.{supported_distro_entries}
use webboot.Cmd.App.{Env, App, prompt}
use webboot.Cmd.App.Events.{events_left, Keeping, proceed-Keeping, in_os-Keeping, prompt-Keeping}
use webboot.Cmd.Boot.{
  infer_or_ask, distro_of, parsed_configs, custom_configs, image_of, choose_image, select_image,
  set_iso_path, expand, boot_or_report, boot_now, boot_image, exec_iso,
}

module _ {W : Type 0} (env : Env W) where
  infer_or_ask-Keeping :
      (k : ℕ) (o : Option Distro) (s : App W) → events_left s ≤ k → Keeping k (infer_or_ask env o s)
  infer_or_ask-Keeping k (some d) s h = h
  infer_or_ask-Keeping k none s h =
      proceed-Keeping k (prompt _ (supported_distro_entries s.supported_distros) s) _
        (prompt-Keeping k _ (supported_distro_entries s.supported_distros) s h) (λ entry t le. le)

  parsed_configs-Keeping :
      (k : ℕ) (path type : Str) (s : App W)
      → events_left s ≤ k
      → Keeping k (parsed_configs env path type s)
  unfolding parsed_configs
  parsed_configs-Keeping k path [] s h = h
  parsed_configs-Keeping k path (c ∷ type) s h =
      in_os-Keeping k (parse_config_from_iso env.machine env.parsers path (c ∷ type)) s h

  custom_configs-Keeping :
      (k : ℕ) (path : Str) (cs : List Config) (s : App W)
      → events_left s ≤ k
      → Keeping k (custom_configs env path cs s)
  unfolding custom_configs
  custom_configs-Keeping k path [] s h = h
  custom_configs-Keeping k path (c ∷ cs) s h =
      in_os-Keeping k (load_custom_configs env.machine path (c ∷ cs)) s h

  image_of-Keeping :
      (k : ℕ) (e : Entry) (s : App W) → events_left s ≤ k → Keeping k (image_of env e s)
  image_of-Keeping k (boot_config i) s h = h
  image_of-Keeping k (iso n p) s h = h
  image_of-Keeping k (dir_option n p) s h = h
  image_of-Keeping k (config l) s h = h
  image_of-Keeping k (interface l) s h = h
  image_of-Keeping k download_option s h = h
  image_of-Keeping k log_option s h = h
  image_of-Keeping k (network n) s h = h
  image_of-Keeping k (mirror m) s h = h

  choose_image-Keeping :
      (k : ℕ) (cs : List OsImage) (s : App W)
      → events_left s ≤ k
      → Keeping k (choose_image env cs s)
  choose_image-Keeping k [] s h = h
  choose_image-Keeping k (c ∷ cs) s h =
      proceed-Keeping k (prompt _ (map boot_config (c ∷ cs)) s) _
        (prompt-Keeping k _ (map boot_config (c ∷ cs)) s h) (λ e t le. image_of-Keeping k e t le)

  select_image-Keeping :
      (k : ℕ) (path : Str) (d : Distro) (s : App W)
      → events_left s ≤ k
      → Keeping k (select_image env path d s)
  unfolding select_image
  select_image-Keeping k path d s h =
      proceed-Keeping k (parsed_configs env path d.boot_config s) _
        (parsed_configs-Keeping k path d.boot_config s h)
        (λ parsed t le.
          proceed-Keeping k (custom_configs env path d.custom_configs t) _
            (custom_configs-Keeping k path d.custom_configs t le)
            (λ custom u le2. choose_image-Keeping k (parsed ++ custom) u le2))

  boot_or_report-Keeping :
      (k : ℕ) (boot : Bool) (image : OsImage) (params : Str) (s : App W)
      → events_left s ≤ k
      → Keeping k (boot_or_report env boot image params s)
  unfolding boot_or_report
  boot_or_report-Keeping k false image params s h = h
  boot_or_report-Keeping k true image params s h =
      in_os-Keeping k (boot_cached_iso env.machine image _) s h

  boot_image-Keeping :
      (k : ℕ) (path : Str) (boot : Bool) (template : Str) (image : OsImage) (s : App W)
      → events_left s ≤ k
      → Keeping k (boot_image env path boot template image s)
  unfolding boot_image set_iso_path
  boot_image-Keeping k path boot template image s h =
      proceed-Keeping k (expand env template (set_iso_path env path s).1) (boot_now env boot image)
        (Kept-same events_left k (env.expand template (set_iso_path env path s).1.cache_dev)
          (set_iso_path env path s).1 h)
        (λ params t le.
          proceed-Keeping k (boot_or_report env boot image params t) _
            (boot_or_report-Keeping k boot image params t le) (λ _ u le2. le2))

  pub exec_iso-Keeping :
      (k : ℕ) (path : Str) (boot : Bool) (s : App W)
      → events_left s ≤ k
      → Keeping k (exec_iso env path boot s)
  unfolding exec_iso distro_of
  exec_iso-Keeping k path boot s h =
      proceed-Keeping k (distro_of env path s) _ (infer_or_ask-Keeping k _ s h) (λ d t le.
        proceed-Keeping k (select_image env path d t) (boot_image env path boot d.kernel_params)
          (select_image-Keeping k path d t le)
          (λ image u le2. boot_image-Keeping k path boot d.kernel_params image u le2))
