-- ===== src/Tests.antt =====
-- Runs of the code on small inputs, and an application of each theorem to concrete arguments.
mod World
mod Passes
mod Loading
mod Texts
mod Git
mod Downloads
mod CommandLine
mod Contained
mod Oci
mod Cache
mod Clones
mod Files
mod Origins
mod Processes
mod Parsing
mod Scoping
