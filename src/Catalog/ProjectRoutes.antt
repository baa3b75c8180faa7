-- ===== src/Catalog/ProjectRoutes.antt =====
-- The handlers of internal/api/catalog_project.go. A body that is no JSON is none.
use agentlens.Common.{String, Option, none, some, List, ◌==◌, if◌then◌else◌}
use agentlens.Http.{Reply, fail, answer}
use agentlens.Sql.{World}
use agentlens.Tables.{Party, Tables}
use agentlens.Party.Projects.{
  assign_to_project, remove_from_project, list_projects_for_catalog_entry,
}

unfoldable pub assign_catalog_to_project_handler :
    String → Option String → World Tables → Reply (Unit {0}) × World Tables
assign_catalog_to_project_handler catalog_id none w = fail 400 "project_id is required" w
assign_catalog_to_project_handler catalog_id (some project_id) w =
    if project_id == ""
    then fail 400 "project_id is required" w
    else answer 500 "failed to assign" 204 (assign_to_project catalog_id project_id w)

unfoldable pub remove_catalog_from_project_handler :
    String → String → World Tables → Reply (Unit {0}) × World Tables
remove_catalog_from_project_handler catalog_id project_id w =
    answer 500 "failed to remove" 204 (remove_from_project catalog_id project_id w)

unfoldable pub list_catalog_projects_handler :
    String → World Tables → Reply (List Party) × World Tables
list_catalog_projects_handler catalog_id w =
    answer 500 "failed to list projects" 200 (list_projects_for_catalog_entry catalog_id w)
