-- ===== src/Lib.antt =====
-- codex-hosts keeps SSH and Telnet hosts for a coding agent and runs commands on them through a tool
-- server (MCP). A call that is marked so waits for the user's approval in a window; sudo and su get
-- their password from the saved ones; secrets that are held in memory are handed to approved child
-- processes. This library models the parts that decide: what is validated, what is started, what is
-- approved, what is kept and what is answered.
--
-- Parts and files (paths of the sources from the repository's root):
-- - Prelude and its children: shared tests, lists, texts, fallible code. A text is the list of its code
--   points, a byte string a list of numbers below 256; `?` is the bind of `Result`.
-- - Text: what the code uses of `str`: trimming, ASCII case, lengths, UTF-8.
-- - Model (src/model.rs): the profile. Model.Validation is both `validation_issue`s; Model.Chain is
--   `resolve_ssh_chain` with `resolve_one`, whose depth counts down from 8 here; Model.Keeping is
--   `chain_retention`. A `Uuid` is a number of which only the equality is used.
-- - Sudo (src/sudo.rs, src/su.rs): Launch is `validate` and `launch` of both files, Quoting is `quote`
--   with a specification of a POSIX shell's word splitting, Frames is the `AuthProtocol` of sudo and
--   SuFrames the one of su, Redactor is `Redactor`, Passwords is `password_for_method_async`. The random
--   nonce is an argument.
-- - Telnet (src/telnet.rs): Parser is `TelnetParser`, Capture is `read_until`, `wait_for_shell` and
--   `read_until_output`, Session is `run_session`. Each read of the socket is an element of a list; the
--   lossy decoding of bytes is an argument.
-- - Approval (src/approval.rs): Queue is `Queue` with its operations, Window is what one frame of the
--   window does to it, with what the widgets report as an argument; an event is one call of the queue
--   by the agent's side, a frame, or a step of the vault's unlock, and a history is a list of events.
-- - Secrets (src/temporary_secrets.rs): Vault is `Vault`, `Field` and `Execution`, Runner is the part of
--   `SecretsApp` that accepts, approves, starts and ends operations; Runner.Events are its histories.
-- - Ssh (src/ssh.rs): Key is `SessionKey`; Pool is `PoolState` with `drain` and `begin_connection`,
--   Pool.Calls the other operations of `SessionPool`, Pool.Runs their steps in any order; Lease is
--   `ChainLease`, the retentions of `connect_chain`, and `pooled_connection`. The map of entries is a
--   list with distinct keys; an `Arc` is the number of its allocation, and what the runtime knows of
--   it (its reference count, whether its connection is closed) is an argument.
-- - Storage (src/storage.rs): Disk is the files and the calls on them, a small monad in which a call
--   works, fails or is cut off; Store is `HostStore` with `save`, `load` and `load_recovering`. The
--   JSON library is a record of functions; the version of the file and the texts are as in the code.
-- - Vault (src/vault_hosts.rs): Hosts is `apply`, `mirror`, `reconcile` and `persist_refreshed` on the
--   list of hosts, and `keep_approved_target`; Accepted and Upserts are about its two loops.
-- - Bw: HostUri (src/bw/host_uri.rs) is `parse_host_uri` and the way back, with Rust's number formats;
--   Policy (src/bw/policy.rs) is every call that `BwInvocation` plans, and Policy.Environment what its
--   process is given: the list of the variables that are set, of which the later one counts.
-- - Import (src/import.rs): Cells is the guarding of cells and the prefix of a spreadsheet's file.
--
-- The parts use each other as in the code: passwords and launches read the profile, the approval and
-- the secrets keep their own state and meet in the one window.
--
-- Loops and fuel: `AuthProtocol::feed` is run with one unit of fuel for each pending byte and one more,
-- which is shown to be enough, as for su's, where one round more can pass the begin marker;
-- `Redactor::feed` with one for each byte of its buffer, each round of which takes at least one;
-- `drain` and the loop that makes room have one round more than there are entries, which is shown to
-- end them; `resolve_one` has the depth of the code. All else is structural recursion.
--
-- Time is a number that each operation takes. Numbers of machine width wrap where the code wraps
-- (the serial of a batch); lengths and counts do not reach their bound.
--
-- Not modelled: the handshake, authentication and channels of the SSH client (src/ssh.rs), the owner of
-- the hosts' file (src/storage.rs), the rest of import and export, the tool server's protocol (src/mcp.rs,
-- src/tool.rs), the running of the password managers (src/bitwarden, src/onepassword, the rest of src/bw),
-- FIDO keys (src/fido.rs) and all drawing (src/ui.rs, src/ui, src/tray.rs). They are input and output,
-- calls of other programs and libraries, or wait for a later extension.
mod Prelude
pub mod Text
pub mod Model
pub mod Sudo
pub mod Telnet
pub mod Approval
pub mod Secrets
pub mod Import
pub mod Ssh
pub mod Storage
pub mod Vault
pub mod Bw
