-- ===== src/Tests/Reports.antt =====
-- A guest reports its host key twice while the first report is being published.
use atproto_market.Common.{String, true, false, [], ◌∷◌, none, some, Option, List, ◌≡◌, refl}
use atproto_market.Common.Checked.{accepted}
use atproto_market.Common.Json.{
  Json, Items, Number, str, array, items, object, cons, nil, end, field,
}
use atproto_market.ComputeRequest.State.{HostKey}
use atproto_market.Receipts.{name, ActiveContract, new_receipts, default_capacity}
use atproto_market.Market.HostKeys.{KeyPlatform, check_host_keys}
use atproto_market.Market.HostKeys.Sound.{AreSound, check_host_keys-AreSound}
use atproto_market.Vm.HostKeys.{Report, KeysWorld, KeysEvent, arrives, ends, keys_run}
use atproto_market.Vm.HostKeys.Published.{AreApart, keys_run-AreApart}

abbrev keys_platform : KeyPlatform
keys_platform = record {
  base64_bytes = λ s. some (0 ∷ 0 ∷ 0 ∷ 1 ∷ 7 ∷ []);
  decode = λ bytes. "ssh-ed25519";
  digest = λ bytes. "d";
  before = λ a b. false;
}

abbrev reported_key : HostKey
reported_key = record {
  type = "ssh-ed25519";
  public_key = "AAAAC3NzaC1lZDI1";
  fingerprint = "SHA256:d";
}

abbrev raw_keys : Option Json
raw_keys = some (
    array (
      cons
        (object (
          field "type" (str "ssh-ed25519") (
            field "publicKey" (str "AAAAC3NzaC1lZDI1") (field "fingerprint" (str "SHA256:d") end))))
        nil))

keys_accepted : check_host_keys keys_platform raw_keys ≡ accepted (reported_key ∷ [])
unfolding check_host_keys atproto_market.Market.HostKeys.check_key
    atproto_market.ComputeRequest.Events.passing
    atproto_market.ComputeRequest.Events.is_host_key_type
    atproto_market.ComputeRequest.Events.is_host_key_blob atproto_market.Market.HostKeys.names
    atproto_market.Market.HostKeys.ssh_key_blob_type atproto_market.Common.includes
    atproto_market.Market.HostKeys.ssh_host_key_fingerprint atproto_market.Common.Sort.sort_by
keys_accepted = refl

check_host_keys-AreSound_example :
    (vs : Items) × (raw_keys ≡ some (array vs))
    × AreSound keys_platform (items vs) (reported_key ∷ [])
check_host_keys-AreSound_example =
    check_host_keys-AreSound keys_platform raw_keys (reported_key ∷ []) keys_accepted

abbrev guest : ActiveContract
guest = record {
  provider_id = some (name "vm1");
  accept_author = "did:plc:a";
  receipt_uri = some "r1";
  receipt_cid = some "c";
  accept_uri = none;
  accept_cid = none;
  accepted_at = none;
  submit_event_url = none;
  provider = none;
  restored = none;
}

abbrev quiet : KeysWorld
quiet = record {
  bidder = record {
    active = ("r1#c", guest) ∷ [];
    tombstones = new_receipts default_capacity;
    terminating = [];
    reported = [];
    registered = [];
    accepts = [];
    changes = [];
    tombstones_saved = [];
    terminations = [];
    destroyed = [];
  };
  jobs = [];
  published = [];
}

abbrev report : Report
report = record { id = name "vm1"; keys = raw_keys; observed_at = "t" }

abbrev show_no_number : Number → String
show_no_number n = "n"

abbrev reports : List KeysEvent
reports =
    arrives report
    ∷ arrives report
    ∷ ends 0 false
    ∷ arrives report
    ∷ ends 0 true
    ∷ arrives report
    ∷ []

keys_run-AreApart_example : AreApart (keys_run keys_platform show_no_number quiet reports)
keys_run-AreApart_example =
    keys_run-AreApart keys_platform show_no_number quiet reports
      (record { pending = tt; jobs = tt; kept = tt; published = tt })
