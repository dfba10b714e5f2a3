-- ===== src/Scripts/Deploy/Rerun.antt =====
-- A database that deploy-interactive.js has bound in wrangler.toml is the one that it uses when it
-- is run again.
use vpn_register_kit.Prelude.{◌≡◌, true, false, is_empty}
use vpn_register_kit.Scripts.Toml.{Parsed}
use vpn_register_kit.Scripts.Toml.ReadBack.{IsPlain}
use vpn_register_kit.Scripts.Toml.Binding.{IsEntry}
use vpn_register_kit.Scripts.Terminal.{Machine}
use vpn_register_kit.Scripts.Deploy.{is_bound}

-- A binding that can be written, and that a later run takes for one.
pub record IsBinding (machine : Machine) (binding : Parsed) : Type 0 where
  pub name : IsEntry binding.database_name
  pub id : IsPlain binding.database_id
  pub named : is_empty binding.database_name ≡ false
  pub bound : is_bound machine binding ≡ true
