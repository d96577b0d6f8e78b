-- ===== src/Config/EzConfiguration/Defaults.antt =====
-- `loadDefaultConfiguration`: of its three sources the first that defines a property wins.
use ezbake_common_cpp.Common.Dict.{lookup}
use ezbake_common_cpp.Common.Result.{Result, ok, throw, hang, crash}
use ezbake_common_cpp.Common.{
  ◌≡◌, ◌⊎◌, inl, inr, refl, Bool, true, false, some, Text, is_blank, Bool-cases, Option-cases,
}
use ezbake_common_cpp.Config.EzConfiguration.{
  caught, ignored, or_default, load_from_ez_configuration_var, load_open_shift,
  load_default_configuration, default_ezconfiguration_dir, ezconfiguration_dir_var,
}
use ezbake_common_cpp.Config.OpenShift.{in_open_shift_container, get_configuration_dir}
use ezbake_common_cpp.Config.Parser.{Properties}
use ezbake_common_cpp.Config.Properties.Merge.{and_then_keeps, load_properties_from_directory_keeps}
use ezbake_common_cpp.Config.Properties.{System, load_properties_from_directory}

module _ (system : System) (j v : Text) where
  caught_keeps :
      (o : Properties × Result (Unit {0})) → lookup j o.0 ≡ some v → lookup j (caught o).0 ≡ some v
  unfolding caught
  caught_keeps (p, ok _) h = h
  caught_keeps (p, throw e) h = h
  caught_keeps (p, hang) h = h
  caught_keeps (p, crash) h = h

  ignored_keeps :
      (o : Properties × Result Bool)
      → lookup j o.0 ≡ some v
      → lookup j (ignored system o).0 ≡ some v
  unfolding ignored
  ignored_keeps (p, ok _) h = h
  ignored_keeps (p, throw e) h = h
  ignored_keeps (p, hang) h = h
  ignored_keeps (p, crash) h = h

  or_default_keeps :
      (o : Properties × Result Bool)
      → lookup j o.0 ≡ some v
      → lookup j (or_default system o).0 ≡ some v
  unfolding or_default
  or_default_keeps (p, ok true) h = h
  or_default_keeps (p, ok false) h =
      load_properties_from_directory_keeps j v system default_ezconfiguration_dir p true h
  or_default_keeps (p, throw e) h = h
  or_default_keeps (p, hang) h = h
  or_default_keeps (p, crash) h = h

  load_from_ez_configuration_var_keeps :
      (p : Properties)
      → lookup j p ≡ some v
      → lookup j (load_from_ez_configuration_var system p).0 ≡ some v
  unfolding load_from_ez_configuration_var
  load_from_ez_configuration_var_keeps p h =
      elim (Option-cases (system.getenv ezconfiguration_dir_var)) [
        | inl unset ↦ rw (unset, load_from_ez_configuration_var) h
        | inr (dir, e) ↦ elim (Bool-cases (is_blank dir)) [
          | inl blank ↦ rw (e, blank, load_from_ez_configuration_var) h
          | inr named ↦
              rw (e, named, load_from_ez_configuration_var)
                (caught_keeps _ (load_properties_from_directory_keeps j v system dir p true h))
        ]
      ]

  load_open_shift_keeps :
      (p : Properties) → lookup j p ≡ some v → lookup j (load_open_shift system p).0 ≡ some v
  unfolding load_open_shift
  load_open_shift_keeps p h = elim (Bool-cases (in_open_shift_container system)) [
    | inl inside ↦ in_dir (get_configuration_dir system) refl inside
    | inr outside ↦ rw (outside, load_open_shift) h
  ]
    where
      in_dir :
          (r : Result Text)
          → get_configuration_dir system ≡ r
          → in_open_shift_container system ≡ true
          → lookup j (load_open_shift system p).0 ≡ some v
      in_dir (ok dir) e i =
          rw (i, e, load_open_shift)
            (ignored_keeps (caught (load_properties_from_directory system dir p true)) (
              caught_keeps (load_properties_from_directory system dir p true)
                (load_properties_from_directory_keeps j v system dir p true h)))
      in_dir (throw x) e i = rw (i, e, load_open_shift) h
      in_dir hang e i = rw (i, e, load_open_shift) h
      in_dir crash e i = rw (i, e, load_open_shift) h

  -- A property that the configuration has keeps its value, whatever the three sources of the
  -- defaults hold and however their loading ends; and so does a property that the first of them,
  -- the directory of the environment variable, defines.
  pub load_default_configuration_keeps :
      (p : Properties)
      → (lookup j p ≡ some v) ⊎ (lookup j (load_from_ez_configuration_var system p).0 ≡ some v)
      → lookup j (load_default_configuration system p).0 ≡ some v
  unfolding load_default_configuration
  load_default_configuration_keeps p h =
      and_then_keeps j v (or_default system (load_from_ez_configuration_var system p))
        (load_open_shift system)
        (or_default_keeps (load_from_ez_configuration_var system p) (from_var h))
        (λ m kept. load_open_shift_keeps m kept)
    where
      from_var :
          (lookup j p ≡ some v) ⊎ (lookup j (load_from_ez_configuration_var system p).0 ≡ some v)
          → lookup j (load_from_ez_configuration_var system p).0 ≡ some v
      from_var (inl before) = load_from_ez_configuration_var_keeps p before
      from_var (inr loaded) = loaded
