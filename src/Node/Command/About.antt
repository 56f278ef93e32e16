-- ===== src/Node/Command/About.antt =====
-- What node/src/command.rs tells sc_cli about the program (`impl SubstrateCli for Cli`).
use substrate_node_template.Common.{ℕ, String}

-- What the build gives: SUBSTRATE_CLI_IMPL_VERSION, CARGO_PKG_DESCRIPTION and CARGO_PKG_AUTHORS.
pub record Package : Type 0 where
  pub cli_impl_version : String
  pub cargo_description : String
  pub cargo_authors : String

pub record About : Type 0 where
  pub impl_name : String
  pub impl_version : String
  pub description : String
  pub author : String
  pub support_url : String
  pub copyright_start_year : ℕ

abbrev pub about : Package → About
about built = record {
  impl_name = "Substrate Node";
  impl_version = built.cli_impl_version;
  description = built.cargo_description;
  author = built.cargo_authors;
  support_url = "support.anonymous.an";
  copyright_start_year = 2017;
}
