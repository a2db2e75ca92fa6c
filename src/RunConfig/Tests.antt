-- ===== src/RunConfig/Tests.antt =====
-- worker/workspace/run_config.cpp: a configuration with some of its optional texts.
use minide.Base.{◌≡◌, refl, true, false, none, some, [], codes}
use minide.RunConfig.{Debugger, RunConfig, config_from_json, config_to_json}
use minide.RunConfig.RoundTrip.{config_from_json-to_json}
use minide.Samples.{sample_json, sample_json-IsLawful}

abbrev gdb : Debugger
gdb = record {
  command_file = none;
  init_command_file = some (codes "init");
  debugger_type = codes "gdb";
  fully_read_symbols = false;
  return_child_result = true;
  debugger_path = codes "/usr/bin/gdb";
  debugger_name = codes "gdb";
  ignore_gdb_init = true;
  ignore_all_gdb_init = false;
  additional_arguments = [];
}

abbrev debug_build : RunConfig
debug_build = record {
  name = codes "debug";
  type_name = codes "c++";
  debugger = gdb;
  arguments = codes "-v";
  executeable = codes "a.out";
  directory = none;
  environment = codes "default";
  autostart = true;
}

config_from_json-to_json_example :
    config_from_json sample_json (λ j. false) (config_to_json sample_json (λ j. false) debug_build)
    ≡ some debug_build
config_from_json-to_json_example =
    config_from_json-to_json sample_json (λ j. false) sample_json-IsLawful (λ s. refl) debug_build
