-- ===== src/Lib.antt =====
-- dockerfile-x compiles a Dockerfile that includes other files (local ones, from git, over http or from
-- an OCI registry) to one plain Dockerfile. `rootLoadDockerfile` loads the root file. `loadDockerfile`
-- reads a file, hands each instruction to the processor of its keyword, which may load more files, and
-- passes the text through the passes over stages. At the root the ARGs of the included files are
-- declared again at the top.
--
-- What models which part (paths from the root of the repository):
--   Load               src/core/loadDockerfile.js, rootLoadDockerfile.js: `load_dockerfile`,
--                      `root_load_dockerfile`; `load_body` is one call, `process_all` its loop;
--                      `Closed` and `Reading` carry properties of actions from the sources to the load
--   Processors         src/instruction/*.js: `process` is `instructionFactory` with the processor it
--                      picks; the load of a child is an argument
--   Parse              src/lib/parseDockerfile.js: `parse_dockerfile`
--   Instruction        src/lib/generateRawInstruction.js, src/utils/isJsonArrayOfString.js
--   ScopeStages        src/core/scopeStages.js: `identify_all` is the first loop, `rescope_names` the second
--   PostProcess        src/core/postProcessDockerfile.js: `post_process_dockerfile`
--   Deduplicate        src/lib/deduplicateStages.js
--   SanitizeNames      src/lib/sanitizeStageNames.js: the alias map is passed on from line to line
--   Names              src/utils/generateFilePathSlug.js, sanitizeStageName.js, shortHash.js,
--                      src/regex/stageNameFilter.js
--   Included           src/core/generateIncluded.js, src/lib/parseDockerfileXStartComment.js
--   RedeclareArgs      src/lib/redeclareArgTop.js: `collect` is the loop over a state of three variables
--   EnvFile            src/core/loadEnvFileAndPrefix.js
--   Source             src/sources/Source.js, resolveSource.js, detectScheme.js,
--                      sanitizeRelativePath.js, tryWithExtension.js
--   Source.Contained   src/sources/assertContained.js; `Serving` is what the two sources share that serve files
--                      from a directory of their own
--   Source.Local       src/sources/LocalSource.js
--   Source.Http        src/sources/HttpSource.js
--   Source.Git         src/sources/GitSource.js: references, keys; `Fetch` has `ensure_repo`, and `Read`
--                      `resolve_git`, `ensure_path` and `read_git`
--   Source.Oci         src/sources/OciSource.js: references, keys; `Digest`; `Registry` has `run_oras`; `Fetch` and
--                      `Artifact` have `ensure_artifact`, and `Read` has `resolve_oci` and `read_oci`
--   Sources            the four classes together, as the `SourceApi` that the loader takes; `Origin` has where a
--                      relative reference leads, `Remote` which reads and `Requests`
--                      which requests a load makes, `Remembered` the memos
--   Download           src/lib/downloadWithCache.js: `Settings` reads the limits, `Redirects` is
--                      `before_redirect`, over the lists of `Address`; `Cache` is `fetch_once`, and `Inflight`
--                      the map of running fetches
--   Spawn              src/lib/spawnCmd.js
--   Limits             src/core/limits.js, and the option --max-include-depth of src/cli/program.js
--   Cli                src/cli/program.js, src/errors/emitJsonError.js, src/utils/getDataFromStdin.js:
--                      `action` and `run_process`, and `payload`
--   Regex              src/regex/*.js and the regular expressions that stand in the code
--   Errors             src/errors/*.js: error classes are constructors with the fields that are read
--   Path               the functions of `path` that the code calls
--   Io                 the `async` methods of the sources: a function of a state that returns or throws;
--                      src/utils/checkFileExists.js and ensureDir.js
--   Exec               `async` code: an action on the outside world that returns, throws or is cut short
--   Packages           the packages outside the repository
--   Common             operations on lists and JavaScript strings, shared by all
--   Tests              runs on small inputs, and each theorem at concrete arguments
--
-- A JavaScript string is a list of UTF-16 code units. Sequences and sets are lists, in order. Instruction
-- objects that the code changes in place are values that a pass returns. A function that throws returns a
-- `Result`, and one that reads outside is an `Exec`, a function of the state of the world.
--
-- Parameters. `Packages` holds `docker-file-parser`, `dotenv`, `JSON.stringify` and the digests; of the
-- digests some theorems ask that they are hexadecimal and of their length (`IsHexDigest`). `SourceApi`
-- holds the constructors and methods of the four kinds of source, over any type of worlds. `Platform` and
-- `UrlApi` hold `net.isIP` and `new URL`, and `Host`, `GitHost`, `ChildProcess`, `Client` and `Process` the environment, the
-- calls of git and oras, the requests and the calls of the file system. No theorem asks anything of them.
--
-- Fuel. `load_dockerfile` takes one unit for each level of nesting. The guard refuses level
-- `max_include_depth + 1`, so `max_include_depth + 2` units, which `root_load_dockerfile` gives, are enough.
-- All other loops recurse on their data.
--
-- Caches of promises. The loader awaits each load before the next, so the maps of the git and OCI sources are
-- modelled between calls, when no promise in them is pending. The map of running fetches is a machine with
-- calls in any order.
--
-- Not modelled: the table of options, which is data of `commander`; and the Go frontend. Upper case and lower
-- case of units past ASCII stand for themselves but for the two whose lower case has an ASCII unit.
pub mod Common
pub mod Errors
pub mod Exec
pub mod Io
pub mod Packages
pub mod Names
pub mod Regex
pub mod Instruction
pub mod Parse
pub mod ScopeStages
pub mod Deduplicate
pub mod SanitizeNames
pub mod Included
pub mod RedeclareArgs
pub mod PostProcess
pub mod EnvFile
pub mod Source
pub mod Processors
pub mod Spawn
pub mod Sources
pub mod Load
pub mod Download
pub mod Limits
pub mod Path
pub mod Cli
pub mod Tests
